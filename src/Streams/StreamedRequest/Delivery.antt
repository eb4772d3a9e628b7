-- ===== src/Streams/StreamedRequest/Delivery.antt =====
-- Every item that a streamed request accepts reaches one consumer, in order.
use my_grpc_extensions.Prelude.{
  ℕ, ◌≡◌, refl, sym, ap, ◌∙◌, true, false, List, [], ◌∷◌, ◌++◌, append-nil, append_assoc, Option,
  none, some, Option-cases, inl, inr, subst, length, arith,
}
use my_grpc_extensions.Streams.StreamedRequest.{
  Link, RequestAsStream, not_initialized, initialized, StreamedRequestInner, as_vec, as_stream,
  StreamedRequest, new_as_stream, open_link, close_link, deliver, at_link, send_all, send_to, send,
  drop_sender, set_stream_sender, get_consumer, end_stream, send_eof, Event, sends, consumes, ends,
  step, run,
}

module _ {TItem : Type 0} where
  -- what all consumers have received, the oldest consumer's first
  abbrev pub all_received : List (Link TItem) → List TItem
  all_received [] = []
  all_received (l ∷ ls) = all_received ls ++ l.received

  abbrev pub buffered : StreamedRequestInner TItem → List TItem
  buffered (as_vec items) = []
  buffered (as_stream (not_initialized items has_end_of_stream)) = items
  buffered (as_stream (initialized sender)) = []

  abbrev pub sent_by : List (Event TItem) → List TItem
  sent_by [] = []
  sent_by (sends item ∷ es) = item ∷ sent_by es
  sent_by (consumes takes ∷ es) = sent_by es
  sent_by (ends ∷ es) = sent_by es

  -- No receiver is dropped.
  abbrev pub Unbroken : List (Event TItem) → Type 0
  Unbroken [] = Unit {0}
  Unbroken (consumes (some n) ∷ es) = ⊥
  Unbroken (_ ∷ es) = Unbroken es

  -- The sender in use is that of the newest channel, whose receiver is alive.
  abbrev Live : RequestAsStream TItem → List (Link TItem) → Type 0
  Live (initialized (some id)) [] = ⊥
  Live (initialized (some id)) (l ∷ ls) = (length ls ≡ id) × (l.takes ≡ none)
  Live _ links = Unit {0}

  abbrev Inv : StreamedRequestInner TItem → List (Link TItem) → List TItem → Type 0
  Inv (as_vec items) links sent = ⊥
  Inv (as_stream state) links sent =
      Live state links × (all_received links ++ buffered (as_stream state) ≡ sent)

  pub send_all_lem :
      (items : List TItem) (l : Link TItem)
      → l.takes ≡ none
      → send_all items l ≡ (true, record l { received = l.received ++ items })
  unfolding send_all deliver
  send_all_lem [] l h = ground (arith, append-nil l.received)
  send_all_lem (item ∷ items) l h = ground (
    arith,
    send_all_lem items (record l { received = l.received ++ item ∷ [] }) h,
    append_assoc l.received (item ∷ []) items,
  )

  pub length-at_link :
      (id : ℕ) (f : Link TItem → Link TItem) (ls : List (Link TItem))
      → length (at_link id f ls) ≡ length ls
  unfolding at_link
  length-at_link id f [] = refl
  length-at_link id f (l ∷ ls) = ground (arith, length-at_link id f ls)

  all_received-close :
      (id : ℕ) (ls : List (Link TItem)) → all_received (at_link id close_link ls) ≡ all_received ls
  unfolding at_link
  all_received-close id [] = refl
  all_received-close id (l ∷ ls) = ground (arith, all_received-close id ls)

  length-drop_sender :
      (sender : Option ℕ) (ls : List (Link TItem)) → length (drop_sender sender ls) ≡ length ls
  unfolding drop_sender
  length-drop_sender none ls = refl
  length-drop_sender (some id) ls = length-at_link id close_link ls

  all_received-drop_sender :
      (sender : Option ℕ) (ls : List (Link TItem))
      → all_received (drop_sender sender ls) ≡ all_received ls
  unfolding drop_sender
  all_received-drop_sender none ls = refl
  all_received-drop_sender (some id) ls = all_received-close id ls

  -- `none`, a panic, promises nothing.
  abbrev Kept : Option (StreamedRequest TItem) → List TItem → Type 0
  Kept none sent = Unit {0}
  Kept (some r) sent = Inv r.inner r.links sent

  at_link-Live :
      (id : ℕ) (item : TItem) (links : List (Link TItem))
      → Live (initialized (some id)) links
      → Live (initialized (some id)) (at_link id (λ l. (deliver item l).1) links)
        × (all_received (at_link id (λ l. (deliver item l).1) links)
            ≡ all_received links ++ item ∷ [])
  unfolding at_link deliver
  at_link-Live id item [] v = absurd v
  at_link-Live id item (l ∷ ls) (e, t) =
      ground (arith, append_assoc (all_received ls) l.received (item ∷ []))

  send_to-Kept :
      (state : RequestAsStream TItem) (item : TItem) (r : StreamedRequest TItem) (sent : List TItem)
      → Inv (as_stream state) r.links sent
      → Kept (send_to state item r) (sent ++ item ∷ [])
  unfolding send_to
  send_to-Kept (not_initialized items true) item r sent (v, e) = tt
  send_to-Kept (not_initialized items false) item r sent (v, e) = (
    tt,
    sym (append_assoc (all_received r.links) items (item ∷ [])) ∙ ap (λ xs. xs ++ item ∷ []) e,
  )
  send_to-Kept (initialized none) item r sent (v, e) = tt
  send_to-Kept (initialized (some id)) item r sent (v, e) =
      let (v', e') = at_link-Live id item r.links v in
      (v', append-nil _ ∙ e' ∙ ap (λ xs. xs ++ item ∷ []) (sym (append-nil _) ∙ e))

  set_stream_sender-Inv :
      (state : RequestAsStream TItem) (r : StreamedRequest TItem) (sent : List TItem)
      → Inv (as_stream state) r.links sent
      → let r' = set_stream_sender none state r in Inv r'.inner r'.links sent
  unfolding set_stream_sender
  set_stream_sender-Inv (not_initialized items true) r sent (v, e) =
      rw (send_all_lem items (open_link none) refl) (tt, append-nil _ ∙ e)
  set_stream_sender-Inv (not_initialized items false) r sent (v, e) =
      rw (send_all_lem items (open_link none) refl) ((refl, refl), append-nil _ ∙ e)
  set_stream_sender-Inv (initialized sender) r sent (v, e) = (
    (length-drop_sender sender r.links, refl),
    append-nil _ ∙ append-nil _ ∙ all_received-drop_sender sender r.links ∙ sym (append-nil _) ∙ e,
  )

  end_stream-Inv :
      (state : RequestAsStream TItem) (r : StreamedRequest TItem) (sent : List TItem)
      → Inv (as_stream state) r.links sent
      → let r' = end_stream state r in Inv r'.inner r'.links sent
  unfolding end_stream
  end_stream-Inv (not_initialized items b) r sent (v, e) = (tt, e)
  end_stream-Inv (initialized sender) r sent (v, e) =
      (tt, append-nil _ ∙ all_received-drop_sender sender r.links ∙ sym (append-nil _) ∙ e)

  step-Kept :
      (state : StreamedRequestInner TItem) (e : Event TItem) (r : StreamedRequest TItem)
      (sent : List TItem)
      → Unbroken (e ∷ [])
      → Inv state r.links sent
      → Kept (step e (record r { inner = state })) (sent ++ sent_by (e ∷ []))
  unfolding step send get_consumer send_eof
  step-Kept (as_vec items) e r sent u v = absurd v
  step-Kept (as_stream state) (sends item) r sent u v =
      send_to-Kept state item (record r { inner = as_stream state }) sent v
  step-Kept (as_stream state) (consumes none) r sent u v =
      rw append-nil (set_stream_sender-Inv state (record r { inner = as_stream state }) sent v)
  step-Kept (as_stream state) (consumes (some n)) r sent u v = absurd u
  step-Kept (as_stream state) ends r sent u v =
      rw append-nil (end_stream-Inv state (record r { inner = as_stream state }) sent v)

  Unbroken-cons :
      (e : Event TItem) (es : List (Event TItem))
      → Unbroken (e ∷ es)
      → Unbroken (e ∷ []) × Unbroken es
  Unbroken-cons (sends item) es u = (tt, u)
  Unbroken-cons (consumes none) es u = (tt, u)
  Unbroken-cons (consumes (some n)) es u = absurd u
  Unbroken-cons ends es u = (tt, u)

  sent_by-cons :
      (e : Event TItem) (es : List (Event TItem))
      → sent_by (e ∷ []) ++ sent_by es ≡ sent_by (e ∷ es)
  sent_by-cons (sends item) es = refl
  sent_by-cons (consumes takes) es = refl
  sent_by-cons ends es = refl

  run-Kept :
      (es : List (Event TItem)) (r : StreamedRequest TItem) (sent : List TItem)
      → Unbroken es
      → Inv r.inner r.links sent
      → Kept (run es r) (sent ++ sent_by es)
  unfolding run
  run-Kept [] r sent u v = rw append-nil v
  run-Kept (e ∷ es) r sent u v = elim (Option-cases (step e r)) [
    | inl h ↦ rw (h, run) tt
    | inr (r', h) ↦
        let (u', us) = Unbroken-cons e es u in
        rw (h, run)
          (subst (Kept (run es r'))
            (append_assoc sent (sent_by (e ∷ [])) (sent_by es)
              ∙ ap (λ xs. sent ++ xs) (sent_by-cons e es))
            (run-Kept es r' (sent ++ sent_by (e ∷ [])) us
              (subst (λ o. Kept o (sent ++ sent_by (e ∷ []))) h (step-Kept r.inner e r sent u' v))))
  ]

  -- However producers, consumers and ends of stream interleave: as long as no receiver is dropped
  -- and no call panics, the items that were sent are exactly those that the consumers received,
  -- the older consumer's first, followed by those that wait for a first consumer; in order, none
  -- lost and none twice.
  pub run_delivers :
      (es : List (Event TItem)) (r : StreamedRequest TItem)
      → Unbroken es
      → run es new_as_stream ≡ some r
      → all_received r.links ++ buffered r.inner ≡ sent_by es
  unfolding new_as_stream
  run_delivers es r u h =
      Inv-equation r.inner r.links (sent_by es)
        (subst (λ o. Kept o (sent_by es)) h (run-Kept es _ [] u (tt, refl)))
    where
      Inv-equation :
          (state : StreamedRequestInner TItem) (links : List (Link TItem)) (sent : List TItem)
          → Inv state links sent
          → all_received links ++ buffered state ≡ sent
      Inv-equation (as_vec items) links sent v = absurd v
      Inv-equation (as_stream state) links sent v = v.1
