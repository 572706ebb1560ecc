-- ===== src/Rust/Text.antt =====
-- Text of the standard library: a `str` as the list of its code points, with `trim`, `split` and the
-- conversions from and to UTF-8.
use Prim.Native.Char.{code}
use Prim.Native.String.{String}
use fangorn_rs.Prelude.{
  ℕ, ◌+◌, ◌-◌, ◌*◌, ◌/◌, ◌%◌, ◌≡◌, refl, Bool, true, ◌&&◌, ◌||◌, Option, none, some, List, [], ◌∷◌,
  ◌++◌, arith, ltb, leb, nat_eq, if◌then◌else◌,
}

abbrev pub Text : Type 0
Text = List ℕ

-- A literal.
abbrev pub codes : String → Text
codes String.[] = []
codes (String.◌∷◌ c s) = code c ∷ codes s

abbrev between : ℕ → ℕ → ℕ → Bool
between lo hi c = leb lo c && leb c hi

-- `char::is_whitespace`, the Unicode property White_Space.
unfoldable pub is_whitespace : ℕ → Bool
is_whitespace c =
    between 0x9 0xd c
    || nat_eq c 0x20
    || nat_eq c 0x85
    || nat_eq c 0xa0
    || nat_eq c 0x1680
    || between 0x2000 0x200a c
    || nat_eq c 0x2028
    || nat_eq c 0x2029
    || nat_eq c 0x202f
    || nat_eq c 0x205f
    || nat_eq c 0x3000

unfoldable pub trim_start : Text → Text
trim_start [] = []
trim_start (c ∷ s) = let rest = trim_start s in if is_whitespace c then rest else c ∷ s

-- What is left of the end once trailing whitespace is cut.
unfoldable pub trim_end : Text → Text
trim_end [] = []
trim_end (c ∷ s) = elim (trim_end s) [
  | [] ↦ if is_whitespace c then [] else c ∷ []
  | d ∷ r ↦ c ∷ d ∷ r
]

unfoldable pub trim : Text → Text
unfolding trim_start trim_end is_whitespace
trim s = trim_end (trim_start s)

-- `trim_matches` at one character, from the start and from the end.
unfoldable trim_start_matches : ℕ → Text → Text
trim_start_matches d [] = []
trim_start_matches d (c ∷ s) =
    let rest = trim_start_matches d s in if nat_eq c d then rest else c ∷ s

unfoldable trim_end_matches : ℕ → Text → Text
trim_end_matches d [] = []
trim_end_matches d (c ∷ s) = elim (trim_end_matches d s) [
  | [] ↦ if nat_eq c d then [] else c ∷ []
  | e ∷ r ↦ c ∷ e ∷ r
]

unfoldable pub trim_matches : ℕ → Text → Text
unfolding trim_start_matches trim_end_matches
trim_matches d s = trim_end_matches d (trim_start_matches d s)

-- `c` in front of the first of some parts.
abbrev pub cons_part : ℕ → List Text → List Text
cons_part c [] = (c ∷ []) ∷ []
cons_part c (p ∷ ps) = (c ∷ p) ∷ ps

-- `split` at one character: there is always a first part.
unfoldable pub split : ℕ → Text → List Text
split d [] = [] ∷ []
split d (c ∷ s) = let parts = split d s in if nat_eq c d then [] ∷ parts else cons_part c parts

-- `split` at two equal characters, such as "&&".
unfoldable pub split_twice : ℕ → Text → List Text
split_twice d [] = [] ∷ []
split_twice d (a ∷ []) = (a ∷ []) ∷ []
split_twice d (a ∷ b ∷ s) =
    let cut = [] ∷ split_twice d s in
    let on = cons_part a (split_twice d (b ∷ s)) in if nat_eq a d && nat_eq b d then cut else on

-- The bytes of one character.
abbrev pub encode_utf8 : ℕ → List ℕ
encode_utf8 c =
    if ltb c 0x80
    then c ∷ []
    else if ltb c 0x800
    then (0xc0 + c / 64) ∷ (0x80 + c % 64) ∷ []
    else if ltb c 0x10000
    then (0xe0 + c / 4096) ∷ (0x80 + c / 64 % 64) ∷ (0x80 + c % 64) ∷ []
    else (0xf0 + c / 262144) ∷ (0x80 + c / 4096 % 64) ∷ (0x80 + c / 64 % 64) ∷ (0x80 + c % 64) ∷ []

-- `as_bytes`.
unfoldable pub as_bytes : Text → List ℕ
as_bytes [] = []
as_bytes (c ∷ s) = encode_utf8 c ++ as_bytes s

-- The state of a decoder inside a character: the bytes that are left, what the next one must lie
-- between, and the value so far.
pub record Utf8State : Type 0 where
  pub left : ℕ
  pub low : ℕ
  pub high : ℕ
  pub value : ℕ

abbrev expect : ℕ → ℕ → ℕ → ℕ → Option Utf8State
expect left low high value = some (record { left = left; low = low; high = high; value = value })

abbrev at_start : Utf8State
at_start = record { left = 0; low = 0; high = 0; value = 0 }

-- The state after the first byte of a character of more than one byte.
lead : ℕ → Option Utf8State
lead b =
    if between 0xc2 0xdf b
    then expect 1 0x80 0xbf (b - 0xc0)
    else if nat_eq b 0xe0
    then expect 2 0xa0 0xbf 0
    else if nat_eq b 0xed
    then expect 2 0x80 0x9f 0xd
    else if between 0xe1 0xef b
    then expect 2 0x80 0xbf (b - 0xe0)
    else if nat_eq b 0xf0
    then expect 3 0x90 0xbf 0
    else if nat_eq b 0xf4
    then expect 3 0x80 0x8f 4
    else if between 0xf1 0xf3 b
    then expect 3 0x80 0xbf (b - 0xf0)
    else none

-- One byte: the next state, and the character that it completes.
utf8_step : Utf8State → ℕ → Option (Utf8State × Text)
unfolding lead
utf8_step s b =
    if nat_eq s.left 0
    then if ltb b 0x80
      then some (at_start, b ∷ [])
      else elim (lead b) [ none ↦ none | some s' ↦ some (s', []) ]
    else if between s.low s.high b
    then if nat_eq s.left 1
      then some (at_start, (s.value * 64 + (b - 0x80)) ∷ [])
      else some (
        record { left = s.left - 1; low = 0x80; high = 0xbf; value = s.value * 64 + (b - 0x80) },
        [],
      )
    else none

utf8_run : Utf8State → List ℕ → Option Text
unfolding utf8_step
utf8_run s [] = if nat_eq s.left 0 then some [] else none
utf8_run s (b ∷ bs) = elim (utf8_step s b) [
  | none ↦ none
  | some (s', out) ↦ elim (utf8_run s' bs) [ none ↦ none | some t ↦ some (out ++ t) ]
]

-- `String::from_utf8`: `none` for what is no UTF-8.
unfoldable pub from_utf8 : List ℕ → Option Text
unfolding utf8_run
from_utf8 bs = utf8_run at_start bs

-- The Unicode scalar values.
abbrev pub is_scalar : ℕ → Bool
is_scalar c = ltb c 0xd800 || between 0xe000 0x10ffff c

utf8_run-encode :
    (c : ℕ) (bs : List ℕ) (t : Text)
    → is_scalar c ≡ true
    → utf8_run at_start bs ≡ some t
    → utf8_run at_start (encode_utf8 c ++ bs) ≡ some (c ∷ t)
unfolding utf8_run
utf8_run-encode c bs t h e = ground arith

-- Every character is a Unicode scalar value, as in every Rust `str`.
abbrev pub IsText : Text → Type 0
IsText [] = Unit {0}
IsText (c ∷ s) = (is_scalar c ≡ true) × IsText s

-- Decoding the bytes of a text gives the text.
pub from_utf8-as_bytes : (s : Text) → IsText s → from_utf8 (as_bytes s) ≡ some s
unfolding from_utf8 as_bytes
from_utf8-as_bytes [] h = refl
from_utf8-as_bytes (c ∷ s) h = utf8_run-encode c (as_bytes s) s h.0 (from_utf8-as_bytes s h.1)
