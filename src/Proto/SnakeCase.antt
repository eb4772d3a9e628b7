-- ===== src/Proto/SnakeCase.antt =====
-- proto_file_reader.rs: into_snake_case and ProtoString. Unicode's letters are a parameter.
use my_grpc_extensions.Prelude.{
  ap, ap₂, ℕ, ◌≡◌, refl, ◌∙◌, Bool, true, false, List, [], ◌∷◌, Bytes, Bool-cases, inl, inr, ◌==◌,
  if◌then◌else◌,
}

-- `str::chars`, the UTF-8 encoding of a char, `char::is_uppercase`, and the first char of
-- `char::to_lowercase`
pub record Letters : Type 0 where
  pub chars : Bytes → List ℕ
  pub encode : List ℕ → Bytes
  pub is_uppercase : ℕ → Bool
  pub to_lowercase : ℕ → ℕ

-- the camel case again: a letter behind a `_` is raised, and the `_` is dropped
abbrev pub raise : (ℕ → ℕ) → List ℕ → List ℕ
raise to_uppercase [] = []
raise to_uppercase (c ∷ []) = c ∷ []
raise to_uppercase (c ∷ d ∷ cs) =
    let kept = c ∷ raise to_uppercase (d ∷ cs) in
    if c == b'_' then to_uppercase d ∷ raise to_uppercase cs else kept

module _ (letters : Letters) where
  open letters use {is_uppercase, to_lowercase}

  -- the loop, past the first char; it puts a `_` in front of an upper case letter
  unfoldable pub snake_rest : List ℕ → List ℕ
  snake_rest [] = []
  snake_rest (ch ∷ src) =
      if is_uppercase ch then b'_' ∷ to_lowercase ch ∷ snake_rest src else ch ∷ snake_rest src

  unfoldable pub snake_chars : List ℕ → List ℕ
  unfolding snake_rest
  snake_chars [] = []
  snake_chars (ch ∷ src) =
      if is_uppercase ch then to_lowercase ch ∷ snake_rest src else ch ∷ snake_rest src

  -- also ProtoString::as_snake_case
  unfoldable pub into_snake_case : Bytes → Bytes
  unfolding snake_chars
  into_snake_case src = letters.encode (snake_chars (letters.chars src))

  -- No letter is a `_`, and the upper case letters come back from their lower case.
  abbrev pub IsCamel : (ℕ → ℕ) → List ℕ → Type 0
  IsCamel to_uppercase [] = Unit {0}
  IsCamel to_uppercase (c ∷ cs) =
      ((c == b'_') ≡ false)
      × (is_uppercase c ≡ true → to_uppercase (to_lowercase c) ≡ c)
      × IsCamel to_uppercase cs

  raise_cons :
      (to_uppercase : ℕ → ℕ) (c : ℕ) (cs : List ℕ)
      → (c == b'_') ≡ false
      → raise to_uppercase (c ∷ cs) ≡ c ∷ raise to_uppercase cs
  raise_cons to_uppercase c [] h = refl
  raise_cons to_uppercase c (d ∷ cs) h = rw h refl

  raise-snake_rest :
      (to_uppercase : ℕ → ℕ) (src : List ℕ)
      → IsCamel to_uppercase src
      → raise to_uppercase (snake_rest src) ≡ src
  unfolding snake_rest
  raise-snake_rest to_uppercase [] h = refl
  raise-snake_rest to_uppercase (c ∷ src) (plain, back, h) = elim (Bool-cases (is_uppercase c)) [
    | inl up ↦ rw up (ap₂ ◌∷◌ (back up) (raise-snake_rest to_uppercase src h))
    | inr low ↦ rw low (
        raise_cons to_uppercase c (snake_rest src) plain
        ∙ ap (◌∷◌ c) (raise-snake_rest to_uppercase src h))
  ]

  -- A name in camel case can be read back from its snake case: with a `_` in front, raising each
  -- letter behind a `_` gives the name, if it starts with an upper case letter, has no `_`, and
  -- its upper case letters come back from their lower case.
  pub raise-snake_chars :
      (to_uppercase : ℕ → ℕ) (c : ℕ) (src : List ℕ)
      → is_uppercase c ≡ true
      → IsCamel to_uppercase (c ∷ src)
      → raise to_uppercase (b'_' ∷ snake_chars (c ∷ src)) ≡ c ∷ src
  unfolding snake_chars
  raise-snake_chars to_uppercase c src up (plain, back, h) =
      rw up (ap₂ ◌∷◌ (back up) (raise-snake_rest to_uppercase src h))
