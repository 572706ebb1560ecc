-- ===== src/Rust/Bytes.antt =====
-- Machine integers of the standard library: `to_le_bytes`, `from_le_bytes`, and `parse` of an
-- unsigned number.
pub mod Digits
use native.Mathlib.Nat.{pow-suc}
use fangorn_rs.Prelude.{
  ℕ, zero, suc, ◌+◌, ◌-◌, ◌*◌, ◌/◌, ◌%◌, ◌^◌, ◌≤◌, ◌<◌, ◌≡◌, refl, ap, ◌&&◌, Option, none, some,
  List, [], ◌∷◌, arith, leb, nat_eq, length, if◌then◌else◌,
}

abbrev pub u128_max : ℕ
u128_max = 2 ^ 128 - 1

unfoldable pub to_le_bytes : ℕ → ℕ → List ℕ
to_le_bytes zero n = []
to_le_bytes (suc width) n = n % 256 ∷ to_le_bytes width (n / 256)

unfoldable pub from_le_bytes : List ℕ → ℕ
from_le_bytes [] = 0
from_le_bytes (b ∷ bs) = b + 256 * from_le_bytes bs

pub length-to_le_bytes : (width n : ℕ) → length (to_le_bytes width n) ≡ width
unfolding to_le_bytes
length-to_le_bytes zero n = refl
length-to_le_bytes (suc width) n = ap suc (length-to_le_bytes width (n / 256))

pub from_le_bytes-to_le_bytes :
    (width n : ℕ) → n < 256 ^ width → from_le_bytes (to_le_bytes width n) ≡ n
unfolding to_le_bytes from_le_bytes
from_le_bytes-to_le_bytes zero n h = omega arith
from_le_bytes-to_le_bytes (suc width) n h = omega (
  arith,
  pow-suc 256 width,
  from_le_bytes-to_le_bytes width (n / 256) (omega (arith, pow-suc 256 width)),
)

parse_digits : ℕ → ℕ → List ℕ → Option ℕ
parse_digits max acc [] = some acc
parse_digits max acc (c ∷ s) =
    let next = acc * 10 + (c - 48) in
    let rest = parse_digits max next s in
    if leb 48 c && leb c 57 && leb next max then rest else none

parse_unsigned : ℕ → List ℕ → Option ℕ
parse_unsigned max [] = none
parse_unsigned max (c ∷ s) = parse_digits max 0 (c ∷ s)

-- `parse::<u128>` and the like, for the type with the largest value `max`: decimal digits, with one
-- `+` allowed in front; `none` for no digits, another character, or a number that is too large.
unfoldable pub parse_uint : ℕ → List ℕ → Option ℕ
unfolding parse_digits parse_unsigned
parse_uint max [] = none
parse_uint max (c ∷ s) = if nat_eq c 43 then parse_unsigned max s else parse_digits max 0 (c ∷ s)

parse_digits-le :
    (max acc : ℕ) (s : List ℕ) (n : ℕ) → acc ≤ max → parse_digits max acc s ≡ some n → n ≤ max
unfolding parse_digits
parse_digits-le max acc [] n h e = ground arith
parse_digits-le max acc (c ∷ s) n h e =
    ground (arith, parse_digits-le max (acc * 10 + (c - 48)) s n)

-- A number that is parsed fits its type.
pub parse_uint-le : (max : ℕ) (s : List ℕ) (n : ℕ) → parse_uint max s ≡ some n → n ≤ max
unfolding parse_uint
parse_uint-le max [] n e = cc
parse_uint-le max (c ∷ []) n e = ground (arith, parse_digits-le max 0 (c ∷ []) n)
parse_uint-le max (c ∷ d ∷ s) n e =
    ground (arith, parse_digits-le max 0 (c ∷ d ∷ s) n, parse_digits-le max 0 (d ∷ s) n)
