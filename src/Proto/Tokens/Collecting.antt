-- ===== src/Proto/Tokens/Collecting.antt =====
-- All tokens of a text: the reader gives those of its lines without the comments, and its loop
-- ends.
use my_grpc_extensions.Prelude.{
  ℕ, zero, suc, ◌+◌, ◌-◌, ◌≤◌, ◌<◌, ◌≡◌, refl, sym, ap, ◌∙◌, List, [], ◌∷◌, ◌++◌, Option, none,
  some, Bytes, drop, length, arith,
}
use my_grpc_extensions.Proto.Tokens.{
  iterate_through_line, ProtoTokensReader, new_reader, next_in, get_next, collect, measure,
  tokens_of, clean_up_comments,
}
use my_grpc_extensions.Proto.Tokens.Words.{words, Agrees, iterate_through_line-Agrees}

-- what a reader has still to give
abbrev pub left_words : List Bytes → ℕ → List Bytes
left_words [] pos = []
left_words (line ∷ lines) pos = words (drop pos line) ++ left_words lines 0

-- the position lies in the first line
abbrev pub InLine : List Bytes → ℕ → Type 0
InLine [] pos = Unit {0}
InLine (line ∷ lines) pos = pos ≤ length line

abbrev NextAgrees : List Bytes → ℕ → Option Bytes × ProtoTokensReader → Type 0
NextAgrees expected bound (none, r) = expected ≡ []
NextAgrees expected bound (some token, r) =
    (expected ≡ token ∷ left_words r.content r.pos)
    × (measure r.content r.pos < bound)
    × InLine r.content r.pos

InLine-start : (lines : List Bytes) → InLine lines 0
InLine-start [] = tt
InLine-start (line ∷ lines) = omega arith

NextAgrees-mono :
    (expected : List Bytes) (m n : ℕ) (r : Option Bytes × ProtoTokensReader)
    → m ≤ n
    → NextAgrees expected m r
    → NextAgrees expected n r
NextAgrees-mono expected m n (none, r) h a = a
NextAgrees-mono expected m n (some token, r) h a = (a.0, omega arith, a.2)

next_in-NextAgrees :
    (lines : List Bytes) (pos : ℕ)
    → InLine lines pos
    → NextAgrees (left_words lines pos) (measure lines pos) (next_in lines pos)
unfolding next_in
next_in-NextAgrees [] pos h = refl
next_in-NextAgrees (line ∷ lines) pos h =
    next_from (iterate_through_line line pos) (iterate_through_line-Agrees line pos h)
      (next_in-NextAgrees lines 0 (InLine-start lines))
  where
    next_from :
        (found : Option (Bytes × ℕ))
        → Agrees line pos (words (drop pos line)) found
        → NextAgrees (left_words lines 0) (measure lines 0) (next_in lines 0)
        → NextAgrees
            (words (drop pos line) ++ left_words lines 0)
            ((length line - pos) + measure lines 0)
            (elim found [
              | some (token, pos') ↦ (some token, record { content = line ∷ lines; pos = pos' })
              | none ↦ next_in lines 0
            ])
    next_from none a later =
        rw a (NextAgrees-mono (left_words lines 0) _ _ (next_in lines 0) (omega arith) later)
    next_from (some (token, pos')) a later =
        (ap (λ ws. ws ++ left_words lines 0) a.0, omega arith, a.2)

collect-left_words :
    (fuel : ℕ) (r : ProtoTokensReader)
    → measure r.content r.pos < fuel
    → InLine r.content r.pos
    → collect fuel r ≡ some (left_words r.content r.pos)
unfolding collect get_next
collect-left_words zero r h k = elim h [ ]
collect-left_words (suc fuel) r h k =
    collected (next_in r.content r.pos) (next_in-NextAgrees r.content r.pos k)
      (λ r' lt inside. collect-left_words fuel r' (omega arith) inside)
  where
    collected :
        (found : Option Bytes × ProtoTokensReader)
        → NextAgrees (left_words r.content r.pos) (measure r.content r.pos) found
        → ((r' : ProtoTokensReader)
            → measure r'.content r'.pos < measure r.content r.pos
            → InLine r'.content r'.pos
            → collect fuel r' ≡ some (left_words r'.content r'.pos))
        → (elim found.0 [
          | none ↦ some []
          | some t ↦ elim (collect fuel found.1) [ none ↦ none | some ts ↦ some (t ∷ ts) ]
        ])
          ≡ some (left_words r.content r.pos)
    collected (none, r') a rest = ap some (sym a)
    collected (some token, r') a rest = rw (rest r' a.1 a.2) (ap some (sym a.0))

-- the tokens of each line in turn
abbrev pub line_words : List Bytes → List Bytes
line_words [] = []
line_words (line ∷ lines) = words line ++ line_words lines

left_words-start : (lines : List Bytes) → left_words lines 0 ≡ line_words lines
left_words-start [] = refl
left_words-start (line ∷ lines) = ap (λ ws. words line ++ ws) (left_words-start lines)

-- The reader comes to its end, and gives the tokens of the lines that are no comments: the runs
-- of bytes that are neither blank nor punctuation, and the punctuation marks.
pub tokens_of-words : (text : Bytes) → tokens_of text ≡ some (line_words (clean_up_comments text))
unfolding tokens_of new_reader
tokens_of-words text =
    collect-left_words _ (new_reader text) (omega arith) (InLine-start (clean_up_comments text))
    ∙ ap some (left_words-start (clean_up_comments text))
