-- ===== src/Streams/ServerStreams/Chunks.antt =====
-- What `send_vec_to_stream_by_chunks` puts into the channel of the response.
use my_grpc_extensions.Prelude.{
  ℕ, ◌≤◌, ◌<◌, ◌≡◌, refl, sym, ap, subst, ◌∙◌, false, List, [], ◌∷◌, ◌++◌, append-nil, append_assoc,
  map, Option, none, some, Result, ok, Bool-cases, inl, inr, length, length-append, ltb, ltb→lt,
  arith, if◌then◌else◌,
}
use my_grpc_extensions.Streams.ServerStreams.{
  SendTimeoutError, appended, Mpsc, channel_size, capacity_overflow, go_on, chunk_loop, send_rest,
  send_vec_to_stream_by_chunks,
}
use my_grpc_extensions.Streams.ServerStreams.Sending.{IsReliable}

abbrev pub concat : {A : Type 0} → List (List A) → List A
concat [] = []
concat (c ∷ cs) = c ++ concat cs

-- All chunks but the last have the size, and the last is neither empty nor larger. A size of 0
-- works as 1.
abbrev pub HasSizes : {A : Type 0} → ℕ → List (List A) → Type 0
HasSizes size [] = Unit {0}
HasSizes size (c ∷ []) = (0 < length c) × (length c ≤ size)
HasSizes size (c ∷ d ∷ cs) = (length c ≡ size) × HasSizes size (d ∷ cs)

HasSizes-cons :
    {A : Type 0} (size : ℕ) (c : List A) (cs : List (List A))
    → 0 < size
    → length c ≡ size
    → HasSizes size cs
    → HasSizes size (c ∷ cs)
HasSizes-cons size c [] pos e h = (omega arith, omega arith)
HasSizes-cons size c (d ∷ cs) pos e h = (e, h)

abbrev pub size_used : ℕ → ℕ
size_used chunk_size = if ltb 0 chunk_size then chunk_size else 1

length_zero : {A : Type 0} (xs : List A) → ltb 0 (length xs) ≡ false → xs ≡ []
length_zero [] h = refl
length_zero (x ∷ xs) h = absurd (ground arith)

-- A first part of the items is put into the channel, in chunks of the size, in order; all if no send
-- fails.
pub record AcceptsChunks {M TDest : Type 0} (tx : Mpsc M) (message : List TDest → M) (size : ℕ)
    (items : List TDest) (before after : List M) : Type 0 where
  pub chunks : List (List TDest)
  pub lost : List TDest
  pub splits : items ≡ concat chunks ++ lost
  pub sizes : HasSizes size chunks
  pub takes : after ≡ before ++ map message chunks
  pub complete : IsReliable tx → lost ≡ []

module _ {Status TSrc TDest TDestChunk : Type 0} (tx : Mpsc (Result TDestChunk Status))
    (chunk_size : ℕ) (mapping : TSrc → TDest)
    (transform_to_contract : List TDest → TDestChunk) where
  open tx use {Chan, accepted, send_timeout}

  abbrev message : List TDest → Result TDestChunk Status
  message chunk = ok (transform_to_contract chunk)

  abbrev Accepts :
      List TDest → List (Result TDestChunk Status) → List (Result TDestChunk Status) → Type 0
  Accepts = AcceptsChunks tx message (size_used chunk_size)

  -- a send that fails loses all that was to come
  broken-Accepts :
      (items chunk : List TDest) (c : Chan) (e : SendTimeoutError) (c' : Chan)
      → send_timeout (message chunk) c ≡ (some e, c')
      → accepted c' ≡ accepted c
      → Accepts items (accepted c) (accepted c')
  broken-Accepts items chunk c e c' h kept = record {
    chunks = [];
    lost = items;
    splits = refl;
    sizes = tt;
    takes = kept ∙ sym (append-nil (accepted c));
    complete = λ reliable. cc (reliable (message chunk) c, ap (λ p. p.0) h);
  }

  send_last :
      (chunk : List TDest) (c : Chan) (r : Option SendTimeoutError × Chan)
      → 0 < length chunk
      → length chunk ≤ size_used chunk_size
      → send_timeout (message chunk) c ≡ r
      → accepted r.1 ≡ appended r.0 (message chunk) (accepted c)
      → Accepts chunk (accepted c) (accepted r.1)
  send_last chunk c (none, c') pos fits h taken = record {
    chunks = chunk ∷ [];
    lost = [];
    splits = sym (append-nil (chunk ++ []) ∙ append-nil chunk);
    sizes = (pos, fits);
    takes = taken;
    complete = λ reliable. refl;
  }
  send_last chunk c (some e, c') pos fits h taken = broken-Accepts chunk chunk c e c' h taken

  send_rest-Accepts :
      (chunk : List TDest) (c : Chan)
      → length chunk < size_used chunk_size
      → Accepts chunk
          (accepted c)
          (accepted (send_rest tx chunk_size mapping transform_to_contract (chunk, c)))
  unfolding send_rest
  send_rest-Accepts chunk c fits = elim (Bool-cases (ltb 0 (length chunk))) [
    | inl some_left ↦ rw some_left (
        send_last chunk c _ (ltb→lt 0 (length chunk) some_left) (omega arith) refl
          (tx.accepted-send_timeout (message chunk) c))
    | inr none_left ↦ rw none_left (record {
      chunks = [];
      lost = [];
      splits = length_zero chunk none_left;
      sizes = tt;
      takes = sym (append-nil (accepted c));
      complete = λ reliable. refl;
    })
  ]

  -- the channel in the end, from a state of the loop
  abbrev ended : List TSrc → List TDest → Chan → Chan
  ended src chunk c =
      send_rest tx chunk_size mapping transform_to_contract
        (chunk_loop tx chunk_size mapping transform_to_contract src chunk c)

  send_full :
      (src : List TSrc) (filled : List TDest) (c : Chan) (r : Option SendTimeoutError × Chan)
      → length filled ≡ size_used chunk_size
      → send_timeout (message filled) c ≡ r
      → accepted r.1 ≡ appended r.0 (message filled) (accepted c)
      → ((c' : Chan) → Accepts (map mapping src) (accepted c') (accepted (ended src [] c')))
      → Accepts (filled ++ map mapping src) (accepted c) (
          accepted (
            send_rest tx chunk_size mapping transform_to_contract
              (go_on tx r [] (chunk_loop tx chunk_size mapping transform_to_contract src []))))
  unfolding go_on
  send_full src filled c (none, c') full h taken rest =
      let later = rest c' in
      record {
        chunks = filled ∷ later.chunks;
        lost = later.lost;
        splits =
            ap (λ xs. filled ++ xs) later.splits
            ∙ sym (append_assoc filled (concat later.chunks) later.lost);
        sizes =
            HasSizes-cons (size_used chunk_size) filled later.chunks (ground arith) full
              later.sizes;
        takes =
            later.takes
            ∙ ap (λ xs. xs ++ map message later.chunks) taken
            ∙ append_assoc (accepted c) (message filled ∷ []) (map message later.chunks);
        complete = later.complete;
      }
  send_full src filled c (some e, c') full h taken rest =
      unfold send_rest in broken-Accepts (filled ++ map mapping src) filled c e c' h taken

  chunk_loop-Accepts :
      (src : List TSrc) (chunk : List TDest) (c : Chan)
      → length chunk < size_used chunk_size
      → Accepts (chunk ++ map mapping src) (accepted c) (accepted (ended src chunk c))
  unfolding chunk_loop
  chunk_loop-Accepts [] chunk c fits = rw append-nil (send_rest-Accepts chunk c fits)
  chunk_loop-Accepts (itm ∷ src) chunk c fits =
      let filled = chunk ++ mapping itm ∷ [] in
      let measured = length-append chunk (mapping itm ∷ []) in
      rw (← append_assoc chunk (mapping itm ∷ []) (map mapping src))
        (elim (Bool-cases (ltb (length filled) chunk_size)) [
          | inl wait ↦ rw wait (chunk_loop-Accepts src filled c (ground arith))
          | inr send ↦ rw send (
              send_full src filled c _ (ground arith) refl
                (tx.accepted-send_timeout (message filled) c)
                (λ c'. chunk_loop-Accepts src [] c' (ground arith)))
        ])

  -- Sending by chunks puts a first part of the converted items into the channel of the response, in
  -- order, in chunks of exactly `chunk_size` (of 1 if that is 0), but for a last one that may be
  -- smaller and is not empty; all items are put there if no send fails. If `chunk_size` items take
  -- more than `isize::MAX` bytes, none is: the task panics.
  pub send_vec_to_stream_by_chunks-Accepts :
      (size_of : ℕ) (src : List TSrc)
      → (let sent = accepted (
            send_vec_to_stream_by_chunks tx chunk_size mapping transform_to_contract size_of src) in
          if capacity_overflow size_of chunk_size
          then sent ≡ []
          else AcceptsChunks tx
              (λ chunk. ok (transform_to_contract chunk))
              (size_used chunk_size)
              (map mapping src)
              []
              sent)
  unfolding send_vec_to_stream_by_chunks
  send_vec_to_stream_by_chunks-Accepts size_of src =
      elim (Bool-cases (capacity_overflow size_of chunk_size)) [
        | inl too_large ↦ rw too_large (tx.accepted-channel channel_size)
        | inr fits ↦ rw fits (
            subst
              (λ xs.
                Accepts (map mapping src) xs (accepted (ended src [] (tx.channel channel_size))))
              (tx.accepted-channel channel_size)
              (chunk_loop-Accepts src [] (tx.channel channel_size) (ground arith)))
      ]
