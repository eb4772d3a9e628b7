-- ===== src/Proto/Tokens.antt =====
-- proto_tokens_reader.rs: ProtoTokensReader.
pub mod Words
pub mod Collecting
use my_grpc_extensions.Prelude.{
  ℕ, zero, suc, ◌+◌, ◌-◌, Bool, ◌||◌, List, [], ◌∷◌, ◌++◌, Option, none, some, Bytes, codes,
  starts_with, leb, ◌==◌, take, drop, length, if◌then◌else◌,
}

-- The UTF-8 encodings of Unicode's white space, which `str::trim` takes off.
abbrev white_spaces : List Bytes
white_spaces =
    (9 ∷ [])
    ∷ (10 ∷ [])
    ∷ (11 ∷ [])
    ∷ (12 ∷ [])
    ∷ (13 ∷ [])
    ∷ (32 ∷ [])
    ∷ (0xC2 ∷ 0x85 ∷ [])
    ∷ (0xC2 ∷ 0xA0 ∷ [])
    ∷ (0xE1 ∷ 0x9A ∷ 0x80 ∷ [])
    ∷ (0xE2 ∷ 0x80 ∷ 0x80 ∷ [])
    ∷ (0xE2 ∷ 0x80 ∷ 0x81 ∷ [])
    ∷ (0xE2 ∷ 0x80 ∷ 0x82 ∷ [])
    ∷ (0xE2 ∷ 0x80 ∷ 0x83 ∷ [])
    ∷ (0xE2 ∷ 0x80 ∷ 0x84 ∷ [])
    ∷ (0xE2 ∷ 0x80 ∷ 0x85 ∷ [])
    ∷ (0xE2 ∷ 0x80 ∷ 0x86 ∷ [])
    ∷ (0xE2 ∷ 0x80 ∷ 0x87 ∷ [])
    ∷ (0xE2 ∷ 0x80 ∷ 0x88 ∷ [])
    ∷ (0xE2 ∷ 0x80 ∷ 0x89 ∷ [])
    ∷ (0xE2 ∷ 0x80 ∷ 0x8A ∷ [])
    ∷ (0xE2 ∷ 0x80 ∷ 0xA8 ∷ [])
    ∷ (0xE2 ∷ 0x80 ∷ 0xA9 ∷ [])
    ∷ (0xE2 ∷ 0x80 ∷ 0xAF ∷ [])
    ∷ (0xE2 ∷ 0x81 ∷ 0x9F ∷ [])
    ∷ (0xE3 ∷ 0x80 ∷ 0x80 ∷ [])
    ∷ []

-- the length of the white space that the text starts with, or 0
leading : List Bytes → Bytes → ℕ
leading [] s = 0
leading (w ∷ ws) s = if starts_with s w then length w else leading ws s

trim_rounds : List ℕ → Bytes → Bytes
trim_rounds [] s = s
trim_rounds (_ ∷ rounds) s =
    let n = leading white_spaces s in
    let rest = trim_rounds rounds (drop n s) in if n == 0 then s else rest

-- `str::trim` as far as `starts_with("//")` sees it: the end of the text makes no difference there.
-- Each round takes one white space off, so as many rounds as bytes are enough.
trim_start : Bytes → Bytes
unfolding trim_rounds leading
trim_start s = trim_rounds s s

unfoldable pub is_comment : Bytes → Bool
unfolding trim_start
is_comment itm = starts_with (trim_start itm) (codes "//")

-- `src.split('\n')`: `line` is what has been read of the current line
unfoldable pub split_lines : Bytes → Bytes → List Bytes
split_lines line [] = line ∷ []
split_lines line (c ∷ src) =
    if c == b'\n' then line ∷ split_lines [] src else split_lines (line ++ c ∷ []) src

keep_lines : List Bytes → List Bytes
keep_lines [] = []
keep_lines (itm ∷ lines) = if is_comment itm then keep_lines lines else itm ∷ keep_lines lines

unfoldable pub clean_up_comments : Bytes → List Bytes
unfolding keep_lines
clean_up_comments src = keep_lines (split_lines [] src)

abbrev pub slice : Bytes → ℕ → ℕ → Bytes
slice line from to = take (to - from) (drop from line)

abbrev pub is_blank : ℕ → Bool
is_blank b = leb b 32

abbrev pub is_punctuation : ℕ → Bool
is_punctuation b = b == b'(' || b == b')' || b == b';' || b == b'{' || b == b'}'

abbrev pub start_or : Option ℕ → ℕ → ℕ
start_or none pos = pos
start_or (some start_pos) pos = start_pos

-- The token from `start_pos` up to `pos`, or else `otherwise`.
abbrev pub token_or : Bytes → Option ℕ → ℕ → Option (Bytes × ℕ) → Option (Bytes × ℕ)
token_or line none pos otherwise = otherwise
token_or line (some start_pos) pos otherwise = some (slice line start_pos pos, pos)

-- the `while` of iterate_through_line; the second argument is the line from `pos` on
unfoldable pub iterate_from : Bytes → Bytes → ℕ → Option ℕ → Option (Bytes × ℕ)
iterate_from line [] pos start_pos = token_or line start_pos pos none
iterate_from line (b ∷ rest) pos start_pos =
    let skip = iterate_from line rest (suc pos) start_pos in
    let longer = iterate_from line rest (suc pos) (some (start_or start_pos pos)) in
    if is_blank b
    then token_or line start_pos pos skip
    else if is_punctuation b
    then token_or line start_pos pos (some (slice line pos (suc pos), suc pos))
    else longer

unfoldable pub iterate_through_line : Bytes → ℕ → Option (Bytes × ℕ)
unfolding iterate_from
iterate_through_line line pos = iterate_from line (drop pos line) pos none

pub record ProtoTokensReader : Type 0 where
  pub content : List Bytes
  pub pos : ℕ

unfoldable pub new_reader : Bytes → ProtoTokensReader
new_reader content = record { content = clean_up_comments content; pos = 0 }

unfoldable pub next_in : List Bytes → ℕ → Option Bytes × ProtoTokensReader
next_in [] pos = (none, record { content = []; pos = pos })
next_in (first_line ∷ content) pos =
    let rest = next_in content 0 in
    elim (iterate_through_line first_line pos) [
      | some (token, pos') ↦ (some token, record { content = first_line ∷ content; pos = pos' })
      | none ↦ rest
    ]

unfoldable pub get_next : ProtoTokensReader → Option Bytes × ProtoTokensReader
unfolding next_in
get_next r = next_in r.content r.pos

-- `for token in reader`: all tokens, by at most `fuel` calls; `none` means that it ran out.
unfoldable pub collect : ℕ → ProtoTokensReader → Option (List Bytes)
collect zero r = none
collect (suc fuel) r =
    let (token, r') = get_next r in
    let rest = collect fuel r' in
    elim token [ none ↦ some [] | some t ↦ elim rest [ none ↦ none | some ts ↦ some (t ∷ ts) ] ]

-- Each token takes a byte at least, so this fuel is enough.
abbrev pub measure : List Bytes → ℕ → ℕ
measure [] pos = 0
measure (line ∷ lines) pos = (length line - pos) + measure lines 0

unfoldable pub tokens_of : Bytes → Option (List Bytes)
tokens_of line = let r = new_reader line in collect (measure r.content 0 + 1) r
