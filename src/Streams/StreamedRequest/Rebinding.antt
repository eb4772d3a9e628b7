-- ===== src/Streams/StreamedRequest/Rebinding.antt =====
-- What a second consumer gets: `get_consumer` is called once more when a request is retried.
use my_grpc_extensions.Prelude.{
  ℕ, zero, suc, ◌≡◌, refl, ap, ◌∙◌, Bool, true, false, List, [], ◌∷◌, ◌++◌, none, some, length,
  replicate,
}
use my_grpc_extensions.Streams.StreamedRequest.{
  Link, not_initialized, initialized, StreamedRequestInner, as_vec, as_stream, StreamedRequest,
  new_as_vec, open_link, send_to, send, get_consumer, end_stream, end_in, send_eof, Event, consumes,
  step, run,
}
use my_grpc_extensions.Streams.StreamedRequest.Delivery.{send_all_lem}

replicate-append_cons :
    {A : Type 0} (k : ℕ) (a : A) (xs : List A)
    → replicate k a ++ (a ∷ xs) ≡ a ∷ (replicate k a ++ xs)
replicate-append_cons zero a xs = refl
replicate-append_cons (suc k) a xs = ap (◌∷◌ a) (replicate-append_cons k a xs)

module _ {TItem : Type 0} where
  -- a channel whose receiver got these items and stays alive
  abbrev pub link : List TItem → Bool → Link TItem
  link items alive = record { received = items; takes = none; sender_alive = alive }

  abbrev waiting : List TItem → StreamedRequest TItem
  waiting items = record {
    inner = as_stream (not_initialized items false);
    links = [];
    channel_size = 1024;
  }

  abbrev bound : List TItem → List (Link TItem) → StreamedRequest TItem
  bound items older = record {
    inner = as_stream (initialized (some (length older)));
    links = link items true ∷ older;
    channel_size = 1024;
  }

  run_consumes :
      (es : List (Event TItem)) (r r' : StreamedRequest TItem)
      → get_consumer none r ≡ r'
      → run (consumes none ∷ es) r ≡ run es r'
  unfolding run step
  run_consumes es r r' e = rw e

  vec_consumer :
      (items : List TItem) (links : List (Link TItem))
      → get_consumer none (record (new_as_vec items) { links = links })
        ≡ record (new_as_vec items) { links = link items false ∷ links }
  unfolding get_consumer new_as_vec
  vec_consumer items links = rw (send_all_lem items (open_link none) refl)

  -- A request from a vector gives all of its items to every consumer, and the end behind them.
  pub run_consumes_vec :
      (k : ℕ) (items : List TItem) (links : List (Link TItem))
      → run (replicate k (consumes none)) (record (new_as_vec items) { links = links })
        ≡ some (record (new_as_vec items) { links = replicate k (link items false) ++ links })
  run_consumes_vec zero items links = unfold run in refl
  run_consumes_vec (suc k) items links =
      run_consumes (replicate k (consumes none)) _ _ (vec_consumer items links)
      ∙ run_consumes_vec k items (link items false ∷ links)
      ∙ ap (λ ls. some (record (new_as_vec items) { links = ls }))
          (replicate-append_cons k (link items false) links)

  abbrev pub IsStream : StreamedRequestInner TItem → Type 0
  IsStream (as_vec items) = ⊥
  IsStream (as_stream state) = Unit {0}

  send-end :
      (state : StreamedRequestInner TItem) (item : TItem) (r : StreamedRequest TItem)
      → IsStream state
      → send item (end_in state r) ≡ none
  unfolding send send_to end_in end_stream
  send-end (as_vec items) item r h = absurd h
  send-end (as_stream (not_initialized items b)) item r h = refl
  send-end (as_stream (initialized sender)) item r h = refl

  -- Once one producer is dropped, the next item of any other producer panics, unless a consumer
  -- is bound in between.
  pub send-send_eof :
      (item : TItem) (r : StreamedRequest TItem) → IsStream r.inner → send item (send_eof r) ≡ none
  unfolding send_eof
  send-send_eof item r h = send-end r.inner item r h
