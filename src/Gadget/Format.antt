-- ===== src/Gadget/Format.antt =====
-- What parse_intent_string of fangorn/src/gadget/mod.rs reads back from a written intent string.
pub mod Scan
use native.Mathlib.Nat.{zero-add}
use fangorn_rs.Prelude.{
  ℕ, zero, suc, ◌+◌, ◌-◌, ◌≡◌, refl, sym, ap, ap₂, ◌∙◌, Bool, true, false, ◌||◌, Option, none, some,
  List, [], ◌∷◌, ◌++◌, arith, append_assoc, append-nil, map, take, length, take-length, contains,
  nat_eq, if◌then◌else◌, all, not, ℕ-Eq, contains-append,
}
use fangorn_rs.Rust.Outcome.{Outcome, ok, err, ◌>>=◌}
use fangorn_rs.Rust.Text.{Text, trim, trim_end, split_twice, is_whitespace, cons_part}
use fangorn_rs.Gadget.Syntax.{
  Nom, ampersand, open_paren, close_paren, find_end, parse_part, parse_parts, parse_intent_string,
}
use Scan.{
  depth_after, find_end-data, find_end-open, trim-visible, split_twice-cut, split_twice-last,
}

-- One conjunct as a user writes it: `lead type(data) tail`.
pub record Conjunct : Type 0 where
  pub lead : Text
  pub intent_type : Text
  pub content : Text
  pub tail : Text

abbrev pub show_conjunct : Conjunct → Text
show_conjunct w = w.lead ++ (w.intent_type ++ open_paren ∷ (w.content ++ close_paren ∷ w.tail))

-- The conjuncts with "&&" between them.
abbrev pub show_conjuncts : Conjunct → List Conjunct → Text
show_conjuncts w [] = show_conjunct w
show_conjuncts w (v ∷ vs) = show_conjunct w ++ ampersand ∷ ampersand ∷ show_conjuncts v vs

abbrev pub starts_visible : Text → Bool
starts_visible [] = true
starts_visible (c ∷ s) = not (is_whitespace c)

-- The spaces in front are whitespace; the type does not begin with whitespace and has no parenthesis
-- that opens; the parentheses of the data are balanced; nothing has an ampersand.
pub record IsWritten (w : Conjunct) : Type 0 where
  pub led : all is_whitespace w.lead ≡ true
  pub named : starts_visible w.intent_type ≡ true
  pub flat : contains w.intent_type open_paren ≡ false
  pub balanced : depth_after 1 w.content ≡ some 1
  pub single : contains (show_conjunct w) ampersand ≡ false

abbrev pub AllWritten : List Conjunct → Type 0
AllWritten [] = Unit {0}
AllWritten (w ∷ ws) = IsWritten w × AllWritten ws

abbrev pub meaning : Conjunct → Text × Text
meaning w = (w.intent_type, w.content)

-- A conjunct whose data ends in `last` before its parenthesis is closed.
pub record Unclosed : Type 0 where
  pub lead : Text
  pub intent_type : Text
  pub content : Text
  pub last : ℕ

abbrev pub show_unclosed : Unclosed → Text
show_unclosed u = u.lead ++ (u.intent_type ++ open_paren ∷ (u.content ++ u.last ∷ []))

-- At every place of the data the first parenthesis is open: the depth stays above 0.
pub record IsUnclosed (u : Unclosed) : Type 0 where
  pub led : all is_whitespace u.lead ≡ true
  pub named : starts_visible u.intent_type ≡ true
  pub flat : contains u.intent_type open_paren ≡ false
  pub depth : ℕ
  pub stays_open : depth_after 1 (u.content ++ u.last ∷ []) ≡ some depth
  pub visible : is_whitespace u.last ≡ false
  pub single : contains (show_unclosed u) ampersand ≡ false

abbrev pub behind : List Conjunct → Unclosed → Text
behind [] u = show_unclosed u
behind (w ∷ ws) u = show_conjunct w ++ ampersand ∷ ampersand ∷ behind ws u

open_visible : is_whitespace open_paren ≡ false
unfolding is_whitespace
open_visible = refl

close_visible : is_whitespace close_paren ≡ false
unfolding is_whitespace
close_visible = refl

trim-typed :
    (lead ty content tail : Text)
    → all is_whitespace lead ≡ true
    → starts_visible ty ≡ true
    → trim (lead ++ (ty ++ open_paren ∷ (content ++ close_paren ∷ tail)))
      ≡ ty ++ open_paren ∷ (content ++ close_paren ∷ trim_end tail)
trim-typed lead [] content tail l v =
    trim-visible lead open_paren content close_paren tail l open_visible close_visible
trim-typed lead (x ∷ xs) content tail l v =
    rw
      (
        ← append_assoc xs (open_paren ∷ content) (close_paren ∷ tail),
        ← append_assoc xs (open_paren ∷ content) (close_paren ∷ trim_end tail),
      )
      (trim-visible lead x (xs ++ open_paren ∷ content) close_paren tail l (ground (arith, v))
        close_visible)

trim-open :
    (lead ty content : Text) (c : ℕ)
    → all is_whitespace lead ≡ true
    → starts_visible ty ≡ true
    → is_whitespace c ≡ false
    → trim (lead ++ (ty ++ open_paren ∷ (content ++ c ∷ [])))
      ≡ ty ++ open_paren ∷ (content ++ c ∷ [])
trim-open lead [] content c l v vc =
    trim-visible lead open_paren content c [] l open_visible vc ∙ (unfold trim_end in refl)
trim-open lead (x ∷ xs) content c l v vc = rw (← append_assoc xs (open_paren ∷ content) (c ∷ [])) (
    trim-visible lead x (xs ++ open_paren ∷ content) c [] l (ground (arith, v)) vc
    ∙ (unfold trim_end in refl))

module _ (nom : Nom) where
  parse_part-conjunct :
      (w : Conjunct) → IsWritten w → parse_part nom (show_conjunct w) ≡ ok (meaning w)
  unfolding parse_part
  parse_part-conjunct w v = rw (
    trim-typed w.lead w.intent_type w.content w.tail v.led v.named,
    nom.take_until-found open_paren w.intent_type _ v.flat,
    nom.tag-match open_paren _,
    find_end-data 1 0 w.content (trim_end w.tail) (omega arith) v.balanced,
    zero-add,
    take-length w.content _,
  )

  -- An intent string in which every conjunct is well written is read as the list of its types and
  -- data, in order: whitespace in front of a conjunct and what follows its closing parenthesis are
  -- dropped, and the data may have balanced parentheses of its own.
  pub parse_intent_string-show :
      (w : Conjunct) (ws : List Conjunct)
      → IsWritten w
      → AllWritten ws
      → parse_intent_string nom (show_conjuncts w ws) ≡ ok (map meaning (w ∷ ws))
  unfolding parse_intent_string
  parse_intent_string-show w [] v vs =
      rw (split_twice-last ampersand (show_conjunct w) v.single, parse_part-conjunct w v)
  parse_intent_string-show w (u ∷ us) v vs = rw (
    split_twice-cut ampersand (show_conjunct w) (show_conjuncts u us) v.single,
    parse_part-conjunct w v,
    parse_intent_string-show u us vs.0 vs.1,
  )

  parse_part-unclosed :
      (u : Unclosed) → IsUnclosed u → parse_part nom (show_unclosed u) ≡ ok (u.intent_type, [])
  unfolding parse_part
  parse_part-unclosed u v = rw (
    trim-open u.lead u.intent_type u.content u.last v.led v.named v.visible,
    nom.take_until-found open_paren u.intent_type _ v.flat,
    nom.tag-match open_paren _,
    find_end-open 1 0 v.depth (u.content ++ u.last ∷ []) v.stays_open,
  )

  -- An intent string whose last conjunct does not close the parenthesis of its data, though the data
  -- may have pairs of its own, is not refused: behind the well-written conjuncts, the type of the last
  -- one is read, and its data is dropped whole.
  pub parse_intent_string-unclosed :
      (ws : List Conjunct) (u : Unclosed)
      → AllWritten ws
      → IsUnclosed u
      → parse_intent_string nom (behind ws u) ≡ ok (map meaning ws ++ (u.intent_type, []) ∷ [])
  unfolding parse_intent_string
  parse_intent_string-unclosed [] u vs v =
      rw (split_twice-last ampersand (show_unclosed u) v.single, parse_part-unclosed u v)
  parse_intent_string-unclosed (w ∷ ws) u vs v = rw (
    split_twice-cut ampersand (show_conjunct w) (behind ws u) vs.0.single,
    parse_part-conjunct w vs.0,
    parse_intent_string-unclosed ws u vs.1 v,
  )
