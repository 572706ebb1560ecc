-- ===== src/Rust/Bytes/Digits.antt =====
-- `parse` of an unsigned number on a text of decimal digits.
use fangorn_rs.Prelude.{
  ℕ, ◌+◌, ◌-◌, ◌*◌, ◌≤◌, ◌≡◌, refl, Bool, true, ◌&&◌, some, [], ◌∷◌, all, leb, arith,
}
use fangorn_rs.Rust.Text.{Text}
use fangorn_rs.Rust.Decimal.{value_from}
use fangorn_rs.Rust.Bytes.{parse_digits, parse_uint}

abbrev pub is_digit : ℕ → Bool
is_digit c = leb b'0' c && leb c b'9'

le-value_from : (acc : ℕ) (s : Text) → acc ≤ value_from acc s
le-value_from acc [] = omega arith
le-value_from acc (c ∷ s) = omega (arith, le-value_from (acc * 10 + (c - 48)) s)

parse_digits-digits :
    (max acc : ℕ) (s : Text)
    → all is_digit s ≡ true
    → value_from acc s ≤ max
    → parse_digits max acc s ≡ some (value_from acc s)
unfolding parse_digits
parse_digits-digits max acc [] h fits = refl
parse_digits-digits max acc (c ∷ s) h fits =
    ground (
      arith,
      le-value_from (acc * 10 + (c - 48)) s,
      parse_digits-digits max (acc * 10 + (c - 48)) s,
    )

-- Digits are parsed as the number that they stand for, where it fits.
pub parse_uint-digits :
    (max c : ℕ) (s : Text)
    → all is_digit (c ∷ s) ≡ true
    → value_from 0 (c ∷ s) ≤ max
    → parse_uint max (c ∷ s) ≡ some (value_from 0 (c ∷ s))
unfolding parse_uint
parse_uint-digits max c s h fits = ground (arith, parse_digits-digits max 0 (c ∷ s) h fits)
