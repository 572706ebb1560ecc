-- ===== src/Rust/Decimal.antt =====
-- `to_string` and `format!("{}", n)` of an unsigned number: its decimal digits.
use fangorn_rs.Prelude.{
  ℕ, zero, suc, ◌+◌, ◌-◌, ◌*◌, ◌/◌, ◌%◌, ◌<◌, ◌≡◌, refl, sym, ap, ◌∙◌, [], ◌∷◌, ◌++◌, arith, ltb,
  if◌then◌else◌, false, contains, contains-append, ℕ-Eq,
}
use fangorn_rs.Rust.Text.{Text}

-- The fuel is more than the number of digits.
digits : ℕ → ℕ → Text
digits zero n = []
digits (suc fuel) n =
    let rest = digits fuel (n / 10) in
    if ltb n 10 then (48 + n) ∷ [] else rest ++ (48 + n % 10) ∷ []

unfoldable pub show_ℕ : ℕ → Text
unfolding digits
show_ℕ n = digits (suc n) n

-- The number that decimal digits stand for.
abbrev pub value_from : ℕ → Text → ℕ
value_from acc [] = acc
value_from acc (c ∷ s) = value_from (acc * 10 + (c - 48)) s

value_from-append :
    (acc c : ℕ) (s : Text) → value_from acc (s ++ c ∷ []) ≡ value_from acc s * 10 + (c - 48)
value_from-append acc c [] = refl
value_from-append acc c (d ∷ s) = value_from-append (acc * 10 + (d - 48)) c s

value-digits : (fuel n : ℕ) → n < fuel → value_from 0 (digits fuel n) ≡ n
unfolding digits
value-digits zero n h = elim h [ ]
value-digits (suc fuel) n h =
    ground
      (arith, value-digits fuel (n / 10), value_from-append 0 (48 + n % 10) (digits fuel (n / 10)))

pub value-show_ℕ : (n : ℕ) → value_from 0 (show_ℕ n) ≡ n
unfolding show_ℕ
value-show_ℕ n = value-digits (suc n) n (omega arith)

pub show_ℕ-injective : (m n : ℕ) → show_ℕ m ≡ show_ℕ n → m ≡ n
show_ℕ-injective m n e = sym (value-show_ℕ m) ∙ ap (value_from 0) e ∙ value-show_ℕ n

no_dash-digits : (fuel n : ℕ) → contains (digits fuel n) 45 ≡ false
unfolding digits
no_dash-digits zero n = refl
no_dash-digits (suc fuel) n = ground (
  arith,
  no_dash-digits fuel (n / 10),
  contains-append (digits fuel (n / 10)) ((48 + n % 10) ∷ []) 45,
)

-- A number is printed without a dash.
pub no_dash-show_ℕ : (n : ℕ) → contains (show_ℕ n) 45 ≡ false
unfolding show_ℕ
no_dash-show_ℕ n = no_dash-digits (suc n) n
