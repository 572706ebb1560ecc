-- ===== src/Entmoot/Digits.antt =====
-- The token count of entmoot/src/menus/encryption/encryption_screen.rs: what can be typed into it.
use fangorn_rs.Prelude.{
  ℕ, zero, suc, ◌≡◌, refl, ap, sym, subst, Bool, true, false, ◌&&◌, List, [], ◌∷◌, ◌++◌, all, take,
  nat_eq, leb, if_cases, arith,
}
use fangorn_rs.Rust.Text.{Text}
use fangorn_rs.Rust.Bytes.Digits.{is_digit}
use fangorn_rs.Rust.Lines.{is_empty, join_lines}
use fangorn_rs.Entmoot.Env.{Env, KeyEvent, KeyCode, backspace, char}
use fangorn_rs.Entmoot.App.{App, Input, activate}
use fangorn_rs.Entmoot.Encryption.{text_of, typed, match_num_chars}

-- Nothing yet, or digits that do not begin with a zero.
abbrev pub Numeral : Text → Type 0
Numeral [] = Unit {0}
Numeral (c ∷ s) = (is_digit c ≡ true) × (nat_eq c b'0' ≡ false) × (all is_digit s ≡ true)

all-append-last :
    (s : Text) (c : ℕ)
    → all is_digit s ≡ true
    → is_digit c ≡ true
    → all is_digit (s ++ c ∷ []) ≡ true
all-append-last [] c h k = ground arith
all-append-last (d ∷ s) c h k = ground (arith, all-append-last s c)

Numeral-first :
    (s : Text) (c : ℕ)
    → Numeral s
    → is_digit c ≡ true
    → nat_eq c b'0' && is_empty s ≡ false
    → Numeral (s ++ c ∷ [])
Numeral-first [] c h k z = ground arith
Numeral-first (d ∷ s) c h k z = ground (arith, all-append-last s c)

all-take : (n : ℕ) (s : Text) → all is_digit s ≡ true → all is_digit (take n s) ≡ true
all-take zero s h = refl
all-take (suc n) [] h = refl
all-take (suc n) (c ∷ s) h = ground (arith, all-take n s)

Numeral-take : (n : ℕ) (s : Text) → Numeral s → Numeral (take n s)
Numeral-take zero s h = tt
Numeral-take (suc n) [] h = tt
Numeral-take (suc n) (c ∷ s) (d, z, r) = (d, z, all-take n s r)

-- The documented behaviour of a text area on keys at the end of a single line. `AtEnd area t`: the
-- text is `t`, and the cursor stands behind it.
pub record Typing (env : Env) : Type 1 where
  pub AtEnd : env.Area → Text → Type 0
  pub blank-AtEnd : AtEnd env.blank []
  pub lines-AtEnd : (a : env.Area) (t : Text) → AtEnd a t → env.lines a ≡ t ∷ []
  -- A digit is added at the end.
  pub char-AtEnd :
      (a : env.Area) (t : Text) (c : ℕ)
      → AtEnd a t
      → is_digit c ≡ true
      → AtEnd (env.input (record { code = char c; modified = false }) a) (t ++ c ∷ [])
  -- With a control or alt key a digit adds nothing, and a backspace removes a part of the end.
  pub modified-AtEnd :
      (a : env.Area) (t : Text) (c : ℕ)
      → AtEnd a t
      → is_digit c ≡ true
      → (n : ℕ) × AtEnd (env.input (record { code = char c; modified = true }) a) (take n t)
  pub backspace-AtEnd :
      (a : env.Area) (t : Text) (m : Bool)
      → AtEnd a t
      → (n : ℕ) × AtEnd (env.input (record { code = backspace; modified = m }) a) (take n t)

module _ (env : Env) (typing : Typing env) where
  -- The token count holds a numeral, with the cursor at its end.
  abbrev pub HoldsNumeral : Input env → Type 0
  HoldsNumeral i = (t : Text) × typing.AtEnd i.area t × Numeral t

  typed_char :
      (i : Input env) (c : ℕ) (m : Bool)
      → is_digit c ≡ true
      → (nat_eq c b'0' && is_empty (text_of env i)) ≡ false
      → HoldsNumeral i
      → HoldsNumeral (typed env (record { code = char c; modified = m }) i)
  typed_char i c false d z (t, a, k) = (
    t ++ c ∷ [],
    typing.char-AtEnd i.area t c a d,
    Numeral-first t c k d (ground (arith, z, ap join_lines (typing.lines-AtEnd i.area t a))),
  )
  typed_char i c true d z (t, a, k) =
      let (n, a') = typing.modified-AtEnd i.area t c a d in (take n t, a', Numeral-take n t k)

  typed_backspace :
      (i : Input env) (m : Bool)
      → HoldsNumeral i
      → HoldsNumeral (typed env (record { code = backspace; modified = m }) i)
  typed_backspace i m (t, a, k) =
      let (n, a') = typing.backspace-AtEnd i.area t m a in (take n t, a', Numeral-take n t k)

  match_num_chars-HoldsNumeral :
      (code : KeyCode) (m : Bool) (app : App env)
      → HoldsNumeral app.token_count_input
      → HoldsNumeral
          (match_num_chars env (record { code = code; modified = m }) app).token_count_input
  unfolding match_num_chars
  match_num_chars-HoldsNumeral (char c) m app h =
      let field = activate env app.token_count_input in
      let entered = typed_char field c m in
      if_cases (λ (a : App env). HoldsNumeral a.token_count_input) (nat_eq c b'0') _ _
        (λ zero'.
          if_cases (λ (a : App env). HoldsNumeral a.token_count_input)
            (is_empty (text_of env app.token_count_input)) _ _ (λ none'. h)
            (λ some'. entered (ground (arith, zero')) (ground (arith, zero', some')) h))
        (λ digit.
          if_cases (λ (a : App env). HoldsNumeral a.token_count_input) (leb b'1' c && leb c b'9') _
            _ (λ d. entered (ground (arith, d)) (ground (arith, digit)) h) (λ d. h))
  match_num_chars-HoldsNumeral backspace m app h =
      typed_backspace (activate env app.token_count_input) m h
  match_num_chars-HoldsNumeral _ m app h = h

  -- The token count after some keys.
  abbrev pub pressed : List KeyEvent → App env → App env
  pressed [] app = app
  pressed (key ∷ keys) app = pressed keys (match_num_chars env key app)

  -- Whatever keys are pressed at a token count that holds nothing yet or a numeral, it holds nothing
  -- or a numeral: digits alone, and no leading zero.
  pub pressed-Numeral :
      (keys : List KeyEvent) (app : App env)
      → HoldsNumeral app.token_count_input
      → Numeral (text_of env (pressed keys app).token_count_input)
  pressed-Numeral [] app (t, a, k) =
      subst Numeral (sym (ap join_lines (typing.lines-AtEnd app.token_count_input.area t a))) k
  pressed-Numeral (key ∷ keys) app h =
      pressed-Numeral keys (match_num_chars env key app)
        (match_num_chars-HoldsNumeral key.code key.modified app h)
