-- ===== src/Gadget/Syntax.antt =====
-- parse_intent_string of fangorn/src/gadget/mod.rs. The parser combinators of nom are not part of the
-- repository: they are a parameter, with their documented behaviour.
use fangorn_rs.Prelude.{
  ℕ, ◌+◌, ◌-◌, ◌≡◌, false, List, [], ◌∷◌, ◌++◌, take, contains, nat_eq, if◌then◌else◌, ℕ-Eq,
}
use fangorn_rs.Rust.Outcome.{Outcome, ok, err, ◌>>=◌}
use fangorn_rs.Rust.Text.{Text, trim, split_twice}

-- `nom::bytes::complete`: a parser returns what is left and what it took.
pub record Nom : Type 1 where
  pub Failure : Type 0
  -- `format!("{:?}", e)`
  pub debug : Failure → Text
  pub take_until : Text → Text → Outcome Failure (Text × Text)
  pub tag : Text → Text → Outcome Failure (Text × Text)
  pub take_until-found :
      (c : ℕ) (before rest : Text)
      → contains before c ≡ false
      → take_until (c ∷ []) (before ++ c ∷ rest) ≡ ok (c ∷ rest, before)
  pub take_until-missing :
      (c : ℕ) (s : Text) → contains s c ≡ false → (e : Failure) × (take_until (c ∷ []) s ≡ err e)
  pub tag-match : (c : ℕ) (rest : Text) → tag (c ∷ []) (c ∷ rest) ≡ ok (rest, c ∷ [])

abbrev pub ampersand : ℕ
ampersand = b'&'

abbrev pub open_paren : ℕ
open_paren = b'('

abbrev pub close_paren : ℕ
close_paren = b')'

-- The loop over `char_indices`: the position of the parenthesis that closes the depth, or 0 if none
-- does. Positions count characters here and bytes in the source; both cut the text at that place.
unfoldable pub find_end : ℕ → ℕ → Text → ℕ
find_end depth i [] = 0
find_end depth i (c ∷ s) =
    let deeper = find_end (depth + 1) (i + 1) s in
    let closed = find_end (depth - 1) (i + 1) s in
    let same = find_end depth (i + 1) s in
    if nat_eq c open_paren
    then deeper
    else if nat_eq c close_paren
    then (if nat_eq (depth - 1) 0 then i else closed)
    else same

module _ (nom : Nom) where
  open nom use {Failure, take_until, tag}

  -- One round of the loop: a type and its data.
  unfoldable pub parse_part : Text → Outcome Failure (Text × Text)
  unfolding find_end
  parse_part part = do
    (input, intent_type) ← take_until (open_paren ∷ []) (trim part)
    (input', _) ← tag (open_paren ∷ []) input
    ok (intent_type, take (find_end 1 0 input') input')

  unfoldable pub parse_parts : List Text → Outcome Failure (List (Text × Text))
  unfolding parse_part
  parse_parts [] = ok []
  parse_parts (part ∷ parts) = do pair ← parse_part part; rest ← parse_parts parts; ok (pair ∷ rest)

  unfoldable pub parse_intent_string : Text → Outcome Failure (List (Text × Text))
  unfolding parse_parts
  parse_intent_string raw_input = parse_parts (split_twice ampersand raw_input)
