-- ===== src/Proto/Tokens/Words.antt =====
-- The reader of proto_tokens_reader.rs against a plain description of a line's tokens.
use my_grpc_extensions.Prelude.{
  ℕ, zero, suc, ◌+◌, ◌-◌, ◌≤◌, ◌<◌, ◌≡◌, refl, sym, ap, ap₂, subst, ◌∙◌, true, false, List, [], ◌∷◌,
  ◌++◌, Option, none, some, Bytes, take, drop, length, length-drop, length-take, arith,
  if◌then◌else◌, Bool-cases, Nat-cases, inl, inr,
}
use my_grpc_extensions.Proto.Tokens.{
  slice, is_blank, is_punctuation, start_or, token_or, iterate_from, iterate_through_line,
}

-- a token, unless it is empty
abbrev pub flush : Bytes → List Bytes
flush [] = []
flush (b ∷ word) = (b ∷ word) ∷ []

-- The tokens of a text: runs of bytes that are neither blank nor punctuation, and each
-- punctuation mark by itself; `word` is the run that the text goes on with.
unfoldable pub words_from : Bytes → Bytes → List Bytes
words_from word [] = flush word
words_from word (b ∷ rest) =
    let apart = words_from [] rest in
    let longer = words_from (word ++ b ∷ []) rest in
    if is_blank b
    then flush word ++ apart
    else if is_punctuation b
    then flush word ++ (b ∷ []) ∷ apart
    else longer

abbrev pub words : Bytes → List Bytes
words = words_from []

drop-suc :
    {A : Type 0} (n : ℕ) (xs : List A) (b : A) (rest : List A)
    → drop n xs ≡ b ∷ rest
    → drop (suc n) xs ≡ rest
drop-suc zero [] b rest e = cc
drop-suc zero (x ∷ xs) b rest e = cc
drop-suc (suc n) [] b rest e = cc
drop-suc (suc n) (x ∷ xs) b rest e = drop-suc n xs b rest e

take-suc :
    {A : Type 0} (n : ℕ) (xs : List A) (b : A) (rest : List A)
    → drop n xs ≡ b ∷ rest
    → take (suc n) xs ≡ take n xs ++ b ∷ []
take-suc zero [] b rest e = cc
take-suc zero (x ∷ xs) b rest e = cc
take-suc (suc n) [] b rest e = cc
take-suc (suc n) (x ∷ xs) b rest e = ap (◌∷◌ x) (take-suc n xs b rest e)

drop-drop : {A : Type 0} (m n : ℕ) (xs : List A) → m ≤ n → drop (n - m) (drop m xs) ≡ drop n xs
drop-drop zero n xs h = let e : n - 0 ≡ n = omega arith in rw e refl
drop-drop (suc m) zero xs h = elim h [ ]
drop-drop (suc m) (suc n) [] h = elim (Nat-cases (suc n - suc m)) [
  | inl e ↦ rw e refl
  | inr (k, e) ↦ rw e refl
]
drop-drop (suc m) (suc n) (x ∷ xs) h =
    let e : suc n - suc m ≡ n - m = omega arith in rw e (drop-drop m n xs (omega arith))

slice-suc :
    (line : Bytes) (from pos : ℕ) (b : ℕ) (rest : Bytes)
    → from ≤ pos
    → drop pos line ≡ b ∷ rest
    → slice line from (suc pos) ≡ slice line from pos ++ b ∷ []
slice-suc line from pos b rest h e =
    let n : suc pos - from ≡ suc (pos - from) = omega arith in
    rw n (take-suc (pos - from) (drop from line) b rest (drop-drop from pos line h ∙ e))

-- the run that a position stands in
abbrev current : Bytes → Option ℕ → ℕ → Bytes
current line none pos = []
current line (some start_pos) pos = slice line start_pos pos

abbrev Started : ℕ → Option ℕ → ℕ → Type 0
Started low none pos = low ≤ pos
Started low (some start_pos) pos = (low < pos) × (start_pos < pos)

-- A result that agrees with the tokens expected: none if there are none, or the first of them and
-- a position behind it, past `low`.
abbrev pub Agrees : Bytes → ℕ → List Bytes → Option (Bytes × ℕ) → Type 0
Agrees line low expected none = expected ≡ []
Agrees line low expected (some (token, pos)) =
    (expected ≡ token ∷ words (drop pos line)) × (low < pos) × (pos ≤ length line)

flush-slice :
    (line : Bytes) (from pos : ℕ)
    → from < pos
    → pos ≤ length line
    → flush (slice line from pos) ≡ slice line from pos ∷ []
flush-slice line from pos h k =
    flush_pos (slice line from pos)
      (omega (arith, length-take (pos - from) (drop from line), length-drop from line))
  where
    flush_pos : (word : Bytes) → 0 < length word → flush word ≡ word ∷ []
    flush_pos [] h = absurd (omega arith)
    flush_pos (b ∷ word) h = refl

-- the token that ends at `pos`, in front of the tokens that are left
ends_here :
    (line : Bytes) (low : ℕ) (start_pos : Option ℕ) (pos : ℕ) (rest : List Bytes)
    (otherwise : Option (Bytes × ℕ))
    → words (drop pos line) ≡ rest
    → pos ≤ length line
    → Started low start_pos pos
    → (start_pos ≡ none → Agrees line low rest otherwise)
    → Agrees line low
        (flush (current line start_pos pos) ++ rest)
        (token_or line start_pos pos otherwise)
ends_here line low none pos rest otherwise e h st a = a refl
ends_here line low (some from) pos rest otherwise e h st a =
    (rw (flush-slice line from pos st.1 h) (ap (◌∷◌ (slice line from pos)) (sym e)), st.0, h)

words_blank : (b : ℕ) (rest : Bytes) → is_blank b ≡ true → words (b ∷ rest) ≡ words rest
unfolding words_from
words_blank b rest h = rw h refl

words_mark :
    (b : ℕ) (rest : Bytes)
    → is_blank b ≡ false
    → is_punctuation b ≡ true
    → words (b ∷ rest) ≡ (b ∷ []) ∷ words rest
unfolding words_from
words_mark b rest h k = rw h (rw k refl)

low-le : (low : ℕ) (start_pos : Option ℕ) (pos : ℕ) → Started low start_pos pos → low ≤ pos
low-le low none pos st = st
low-le low (some from) pos st = omega arith

slice_one :
    (line : Bytes) (pos b : ℕ) (rest : Bytes)
    → drop pos line ≡ b ∷ rest
    → slice line pos (suc pos) ≡ b ∷ []
slice_one line pos b rest e =
    slice-suc line pos pos b rest (omega arith) e
    ∙ (let z : pos - pos ≡ 0 = omega arith in rw z refl)

longer_run :
    (line : Bytes) (start_pos : Option ℕ) (pos b low : ℕ) (rest : Bytes)
    → drop pos line ≡ b ∷ rest
    → Started low start_pos pos
    → current line (some (start_or start_pos pos)) (suc pos) ≡ current line start_pos pos ++ b ∷ []
longer_run line none pos b low rest e st =
    slice-suc line pos pos b rest (omega arith) e
    ∙ (let z : pos - pos ≡ 0 = omega arith in rw z refl)
longer_run line (some from) pos b low rest e st = slice-suc line from pos b rest (omega arith) e

Started-longer :
    (low : ℕ) (start_pos : Option ℕ) (pos : ℕ)
    → Started low start_pos pos
    → Started low (some (start_or start_pos pos)) (suc pos)
Started-longer low none pos st = (omega arith, omega arith)
Started-longer low (some from) pos st = (omega arith, omega arith)

iterate_from-Agrees :
    (rest line : Bytes) (pos low : ℕ) (start_pos : Option ℕ)
    → drop pos line ≡ rest
    → pos + length rest ≡ length line
    → Started low start_pos pos
    → Agrees line low
        (words_from (current line start_pos pos) rest)
        (iterate_from line rest pos start_pos)
unfolding iterate_from words_from
iterate_from-Agrees [] line pos low none e len st = refl
iterate_from-Agrees [] line pos low (some from) e len st = (
  flush-slice line from pos st.1 (omega arith) ∙ ap (λ r. slice line from pos ∷ words r) (sym e),
  st.0,
  omega arith,
)
iterate_from-Agrees (b ∷ rest) line pos low start_pos e len st = elim (Bool-cases (is_blank b)) [
  | inl blank ↦ rw blank (
      ends_here line low start_pos pos (words_from [] rest) _
        (ap words e ∙ words_blank b rest blank) (omega arith) st
        (λ n.
          subst (λ s. Agrees line low (words_from [] rest) (iterate_from line rest (suc pos) s))
            (sym n)
            (iterate_from-Agrees rest line (suc pos) low none (drop-suc pos line b rest e)
              (omega arith) (omega (arith, low-le low start_pos pos st)))))
  | inr seen ↦ rw seen (elim (Bool-cases (is_punctuation b)) [
    | inl mark ↦ rw mark (
        ends_here line low start_pos pos ((b ∷ []) ∷ words_from [] rest) _
          (ap words e ∙ words_mark b rest seen mark) (omega arith) st
          (λ n. (
            ap₂ (λ x y. x ∷ words y) (sym (slice_one line pos b rest e))
                (sym (drop-suc pos line b rest e)),
            omega (arith, low-le low start_pos pos st),
            omega arith,
          )))
    | inr run ↦ rw run (
        subst
          (λ word.
            Agrees line low (words_from word rest)
              (iterate_from line rest (suc pos) (some (start_or start_pos pos))))
          (longer_run line start_pos pos b low rest e st)
          (iterate_from-Agrees rest line (suc pos) low (some (start_or start_pos pos))
            (drop-suc pos line b rest e) (omega arith) (Started-longer low start_pos pos st)))
  ])
]

drop-length : (n : ℕ) (xs : Bytes) → n ≤ length xs → n + length (drop n xs) ≡ length xs
drop-length n xs h = omega (arith, length-drop n xs)

pub iterate_through_line-Agrees :
    (line : Bytes) (pos : ℕ)
    → pos ≤ length line
    → Agrees line pos (words (drop pos line)) (iterate_through_line line pos)
unfolding iterate_through_line
iterate_through_line-Agrees line pos h =
    iterate_from-Agrees (drop pos line) line pos pos none refl (drop-length pos line h)
      (omega arith)
