-- ===== src/Streams/ServerStreams/Sending.antt =====
-- What a loop that sends one message for each item puts into the channel of the response.
use my_grpc_extensions.Prelude.{
  ◌≡◌, refl, sym, ap, ◌∙◌, List, [], ◌∷◌, ◌++◌, append-nil, append_assoc, map, Option, none, some,
  Result, ok, subst,
}
use my_grpc_extensions.Streams.ServerStreams.{
  SendTimeoutError, appended, Mpsc, channel_size, go_on, send_loop,
  send_from_iterator_with_transformation, send_from_iterator,
}

module _ {M : Type 0} (tx : Mpsc M) where
  -- No send fails.
  abbrev pub IsReliable : Type 0
  IsReliable = (m : M) (c : tx.Chan) → (tx.send_timeout m c).0 ≡ none

  -- The channel takes a first part of the messages, each once and in order; all of them if no send
  -- fails.
  pub record AcceptsPrefix (messages before after : List M) : Type 0 where
    pub sent : List M
    pub lost : List M
    pub splits : messages ≡ sent ++ lost
    pub takes : after ≡ before ++ sent
    pub complete : IsReliable → lost ≡ []

module _ {Status TSrc TDest : Type 0} (tx : Mpsc (Result TDest Status)) where
  open tx use {Chan, accepted, send_timeout}

  module _ (mapping : TSrc → TDest) where
    abbrev messages : List TSrc → List (Result TDest Status)
    messages src = map (λ itm. ok (mapping itm)) src

    go_on-AcceptsPrefix :
        (itm : TSrc) (src : List TSrc) (c : Chan) (r : Option SendTimeoutError × Chan)
        → send_timeout (ok (mapping itm)) c ≡ r
        → accepted r.1 ≡ appended r.0 (ok (mapping itm)) (accepted c)
        → ((c' : Chan)
            → AcceptsPrefix tx
                (messages src)
                (accepted c')
                (accepted (send_loop tx mapping src c').1))
        → AcceptsPrefix tx
            (messages (itm ∷ src))
            (accepted c)
            (accepted (go_on tx r tt (send_loop tx mapping src)).1)
    unfolding go_on
    go_on-AcceptsPrefix itm src c (none, c') e taken rest =
        let later = rest c' in
        record {
          sent = ok (mapping itm) ∷ later.sent;
          lost = later.lost;
          splits = ap (◌∷◌ (ok (mapping itm))) later.splits;
          takes =
              later.takes
              ∙ ap (λ xs. xs ++ later.sent) taken
              ∙ append_assoc (accepted c) (ok (mapping itm) ∷ []) later.sent;
          complete = later.complete;
        }
    go_on-AcceptsPrefix itm src c (some broken, c') e taken rest = record {
      sent = [];
      lost = messages (itm ∷ src);
      splits = refl;
      takes = taken ∙ sym (append-nil (accepted c));
      complete = λ reliable. cc (reliable (ok (mapping itm)) c, ap (λ p. p.0) e);
    }

    send_loop-AcceptsPrefix :
        (src : List TSrc) (c : Chan)
        → AcceptsPrefix tx (messages src) (accepted c) (accepted (send_loop tx mapping src c).1)
    unfolding send_loop
    send_loop-AcceptsPrefix [] c = record {
      sent = [];
      lost = [];
      splits = refl;
      takes = sym (append-nil (accepted c));
      complete = λ reliable. refl;
    }
    send_loop-AcceptsPrefix (itm ∷ src) c =
        go_on-AcceptsPrefix itm src c _ refl (tx.accepted-send_timeout (ok (mapping itm)) c)
          (send_loop-AcceptsPrefix src)

    fresh-AcceptsPrefix :
        (src : List TSrc)
        → AcceptsPrefix tx
            (messages src)
            []
            (accepted (send_loop tx mapping src (tx.channel channel_size)).1)
    fresh-AcceptsPrefix src =
        subst
          (λ xs.
            AcceptsPrefix tx (messages src) xs
              (accepted (send_loop tx mapping src (tx.channel channel_size)).1))
          (tx.accepted-channel channel_size) (send_loop-AcceptsPrefix src (tx.channel channel_size))

    -- A response stream made from an iterator, with a transformation or `From`: a first part of the
    -- converted items is put into its channel, each once and in order, and all of them if no send
    -- fails.
    pub send_from_iterator-AcceptsPrefix :
        (src : List TSrc)
        → AcceptsPrefix tx
            (messages src)
            []
            (accepted (send_from_iterator_with_transformation tx src mapping))
          × AcceptsPrefix tx (messages src) [] (accepted (send_from_iterator tx mapping src))
    unfolding send_from_iterator_with_transformation send_from_iterator
    send_from_iterator-AcceptsPrefix src = (fresh-AcceptsPrefix src, fresh-AcceptsPrefix src)
