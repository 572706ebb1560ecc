-- ===== src/Gadget/Examples.antt =====
-- The gadget framework of fangorn/src/gadget on concrete inputs, over the stand-ins of Fixtures.
use fangorn_rs.Prelude.{ℕ, ◌≡◌, ◌↔◌, refl, Bool, true, some, List, [], ◌∷◌, length, ℕ-Eq, List-Eq}
use fangorn_rs.Fixtures.{nom, bytes_scale, list_scale, plain_hash}
use fangorn_rs.Rust.Outcome.{ok}
use fangorn_rs.Rust.Text.{codes, as_bytes, is_whitespace}
use fangorn_rs.Gadget.Codec.{Bytes, decode_all}
use fangorn_rs.Gadget.Syntax.{parse_intent_string}
use fangorn_rs.Gadget.Format.{
  Conjunct, IsWritten, parse_intent_string-show, Unclosed, IsUnclosed, parse_intent_string-unclosed,
}
use fangorn_rs.Gadget.{Gadget, GadgetRegistry, Intent, verify_intents}
use fangorn_rs.Gadget.Verification.{AllVerified, verify_intents_iff}
use fangorn_rs.Gadget.Password.{password_gadget}

abbrev first : Conjunct
first = record {
  lead = codes "";
  intent_type = codes "Intent1";
  content = codes "a(b)c";
  tail = codes " ";
}

abbrev second : Conjunct
second = record {
  lead = codes " ";
  intent_type = codes "Intent2";
  content = codes "";
  tail = codes "!";
}

first-IsWritten : IsWritten first
unfolding is_whitespace
first-IsWritten = record { led = refl; named = refl; flat = refl; balanced = refl; single = refl }

second-IsWritten : IsWritten second
unfolding is_whitespace
second-IsWritten = record { led = refl; named = refl; flat = refl; balanced = refl; single = refl }

parse_intent_string-show_example :
    parse_intent_string nom (codes "Intent1(a(b)c) && Intent2()!")
    ≡ ok ((codes "Intent1", codes "a(b)c") ∷ (codes "Intent2", codes "") ∷ [])
parse_intent_string-show_example =
    parse_intent_string-show nom first (second ∷ []) first-IsWritten (second-IsWritten, tt)

-- The parenthesis behind `c` closes the second one, and none closes the first.
abbrev open_end : Unclosed
open_end = record {
  lead = codes " ";
  intent_type = codes "Password";
  content = codes "se(c)re";
  last = b't';
}

open_end-IsUnclosed : IsUnclosed open_end
unfolding is_whitespace
open_end-IsUnclosed = record {
  led = refl;
  named = refl;
  flat = refl;
  depth = 1;
  stays_open = refl;
  visible = refl;
  single = refl;
}

parse_intent_string-unclosed_example :
    parse_intent_string nom (codes "Intent1(a(b)c) && Password(se(c)ret")
    ≡ ok ((codes "Intent1", codes "a(b)c") ∷ (codes "Password", []) ∷ [])
parse_intent_string-unclosed_example =
    parse_intent_string-unclosed nom (first ∷ []) open_end (first-IsWritten, tt) open_end-IsUnclosed

-- The world is the balance that every account has.
abbrev password : Gadget ℕ
password = password_gadget ℕ plain_hash

abbrev registry : GadgetRegistry ℕ
registry = record { gadgets = (codes "Password", password) ∷ [] }

abbrev secret : Intent ℕ
secret = record {
  intent_type = codes "Password";
  statement = as_bytes (codes "abc");
  gadget = some password;
}

verify_intents_iff_example :
    (verify_intents (list_scale bytes_scale) registry 0 (secret ∷ []) (1 ∷ 3 ∷ codes "abc")
      ≡ ok true)
    ↔ (◌≡◌ {A = Bool} true true
        × ((ws : List Bytes) × (decode_all (list_scale bytes_scale) (1 ∷ 3 ∷ codes "abc") ≡ some ws)
            × (length ws ≡ 1)
            × AllVerified registry 0 (secret ∷ []) ws))
verify_intents_iff_example =
    verify_intents_iff registry 0 (list_scale bytes_scale) (secret ∷ []) (1 ∷ 3 ∷ codes "abc") true
