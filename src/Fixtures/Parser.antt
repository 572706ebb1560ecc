-- ===== src/Fixtures/Parser.antt =====
-- A parser of one-character patterns in place of the nom crate, for the examples about
-- fangorn/src/gadget/mod.rs.
use fangorn_rs.Prelude.{
  ℕ, ◌≡◌, refl, ap, false, Option, none, some, [], ◌∷◌, ◌++◌, contains, nat_eq, if◌then◌else◌,
  arith, ℕ-Eq,
}
use fangorn_rs.Rust.Outcome.{Outcome, ok, err}
use fangorn_rs.Rust.Text.{Text}
use fangorn_rs.Gadget.Syntax.{Nom}

unfoldable pub find_char : ℕ → Text → Option (Text × Text)
find_char c [] = none
find_char c (x ∷ s) =
    let rest = find_char c s in
    if nat_eq x c
    then some (x ∷ s, [])
    else elim rest [ none ↦ none | some (r, b) ↦ some (r, x ∷ b) ]

pub find_char-found :
    (c : ℕ) (before rest : Text)
    → contains before c ≡ false
    → find_char c (before ++ c ∷ rest) ≡ some (c ∷ rest, before)
unfolding find_char
find_char-found c [] rest h = ground arith
find_char-found c (x ∷ before) rest h = ground (arith, find_char-found c before rest)

pub find_char-missing : (c : ℕ) (s : Text) → contains s c ≡ false → find_char c s ≡ none
unfolding find_char
find_char-missing c [] h = refl
find_char-missing c (x ∷ s) h = ground (arith, find_char-missing c s)

abbrev pub or_failure : Option (Text × Text) → Outcome Text (Text × Text)
or_failure none = err []
or_failure (some p) = ok p

abbrev pub take_until : Text → Text → Outcome Text (Text × Text)
take_until (c ∷ []) s = or_failure (find_char c s)
take_until _ s = err []

abbrev pub tag : Text → Text → Outcome Text (Text × Text)
tag (c ∷ []) (x ∷ s) = if nat_eq x c then ok (s, c ∷ []) else err []
tag _ s = err []

pub tag-match : (c : ℕ) (rest : Text) → tag (c ∷ []) (c ∷ rest) ≡ ok (rest, c ∷ [])
tag-match c rest = ground arith

abbrev pub nom : Nom
nom = record {
  Failure = Text;
  debug = λ t. t;
  take_until = take_until;
  tag = tag;
  take_until-found = λ c before rest h. ap or_failure (find_char-found c before rest h);
  take_until-missing = λ c s h. ([], ap or_failure (find_char-missing c s h));
  tag-match = tag-match;
}
