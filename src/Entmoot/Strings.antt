-- ===== src/Entmoot/Strings.antt =====
-- The intent strings that the screens of entmoot/src/menus/encryption write, as
-- fangorn/src/gadget/mod.rs reads them.
pub mod Intents
pub mod Confirmed
pub mod Prepared
use fangorn_rs.Prelude.{
  ℕ, zero, suc, ◌+◌, ◌-◌, ◌≡◌, refl, ap, sym, ◌∙◌, Bool, true, false, ◌&&◌, ◌||◌, not, Option, none,
  some, List, [], ◌∷◌, ◌++◌, append_assoc, append-nil, map, all, contains, contains-append, nat_eq,
  leb, if◌then◌else◌, ℕ-Eq, arith,
}
use fangorn_rs.Rust.Outcome.{ok}
use fangorn_rs.Rust.Text.{Text, codes, is_whitespace}
use fangorn_rs.Rust.Bytes.Digits.{is_digit}
use fangorn_rs.Gadget.Syntax.{Nom, ampersand, open_paren, close_paren, parse_intent_string}
use fangorn_rs.Gadget.Format.{
  Conjunct, IsWritten, AllWritten, show_conjunct, show_conjuncts, meaning, starts_visible,
  parse_intent_string-show,
}
use fangorn_rs.Gadget.Format.Scan.{depth_after}
use fangorn_rs.Entmoot.Submission.{password_intent, psp22_intent, and_sr25519}

-- A text that may stand between the parentheses of an intent.
pub record IsContent (t : Text) : Type 0 where
  pub balanced : depth_after 1 t ≡ some 1
  pub single : contains t ampersand ≡ false

depth_after-append :
    (d e : ℕ) (s t : Text) → depth_after d s ≡ some e → depth_after d (s ++ t) ≡ depth_after e t
depth_after-append d e [] t h = ground arith
depth_after-append d e (c ∷ s) t h = ground (
  arith,
  depth_after-append (d + 1) e s t,
  depth_after-append (d - 1) e s t,
  depth_after-append d e s t,
)

pub IsContent-append : (s t : Text) → IsContent s → IsContent t → IsContent (s ++ t)
IsContent-append s t h k = record {
  balanced = depth_after-append 1 1 s t h.balanced ∙ k.balanced;
  single = rw (contains-append s t ampersand, h.single) k.single;
}

pub IsContent-digits : (t : Text) → all is_digit t ≡ true → IsContent t
IsContent-digits [] h = ground arith
IsContent-digits (c ∷ t) h =
    let rest = IsContent-digits t (ground arith) in
    record { balanced = ground (arith, rest.balanced); single = ground (arith, rest.single) }

-- What was chosen and entered.
pub record Entries : Type 0 where
  pub password : Text
  pub contract_address : Text
  pub token_count : Text

-- The intent string of each choice of a password, a contract and a signature; the first intent has no
-- operator before it.
abbrev pub intents_of : Bool → Bool → Bool → Entries → Text
intents_of true true s e =
    and_sr25519 s (
      password_intent e.password ++ (codes " && " ++ psp22_intent e.contract_address e.token_count))
intents_of false true s e = and_sr25519 s (psp22_intent e.contract_address e.token_count)
intents_of true false s e = and_sr25519 s (password_intent e.password)
intents_of false false s e = codes "Sr25519()"

-- The type and the data of each intent that was chosen.
abbrev pub optional {ℓ} : {A : Type ℓ} → Bool → A → List A → List A
optional true a l = a ∷ l
optional false a l = l

abbrev pub pairs_of : Bool → Bool → Bool → Entries → List (Text × Text)
pairs_of p c s e =
    optional p (codes "Password", e.password)
      (optional c (codes "Psp22", e.contract_address ++ (codes ", " ++ e.token_count))
        (optional s (codes "Sr25519", []) []))

pub record AreContents (e : Entries) : Type 0 where
  pub password : IsContent e.password
  pub contract_address : IsContent e.contract_address
  pub token_count : all is_digit e.token_count ≡ true

conjunct : Text → Text → Text → Text → Conjunct
conjunct lead intent_type content tail = record {
  lead = lead;
  intent_type = intent_type;
  content = content;
  tail = tail;
}

-- What stands round the data of the three intents.
record IsFrame (lead intent_type tail : Text) : Type 0 where
  led : all is_whitespace lead ≡ true
  named : starts_visible intent_type ≡ true
  flat : contains intent_type open_paren ≡ false
  before : contains (lead ++ (intent_type ++ open_paren ∷ [])) ampersand ≡ false
  behind : contains (close_paren ∷ tail) ampersand ≡ false

single_conjunct :
    (lead ty content tail : Text)
    → IsFrame lead ty tail
    → IsContent content
    → contains (lead ++ (ty ++ open_paren ∷ (content ++ close_paren ∷ tail))) ampersand ≡ false
single_conjunct lead ty content tail f k = ground (
  arith,
  contains-append lead (ty ++ open_paren ∷ (content ++ close_paren ∷ tail)) ampersand,
  contains-append ty (open_paren ∷ (content ++ close_paren ∷ tail)) ampersand,
  contains-append content (close_paren ∷ tail) ampersand,
  contains-append lead (ty ++ open_paren ∷ []) ampersand,
  contains-append ty (open_paren ∷ []) ampersand,
)

IsFrame-IsWritten :
    (lead ty content tail : Text)
    → IsFrame lead ty tail
    → IsContent content
    → IsWritten (conjunct lead ty content tail)
unfolding conjunct
IsFrame-IsWritten lead ty content tail f k = record {
  led = f.led;
  named = f.named;
  flat = f.flat;
  balanced = k.balanced;
  single = single_conjunct lead ty content tail f k;
}

abbrev space : Text
space = codes " "

abbrev psp22_data : Entries → Text
psp22_data e = e.contract_address ++ (codes ", " ++ e.token_count)

psp22_data-IsContent : (e : Entries) → AreContents e → IsContent (psp22_data e)
psp22_data-IsContent e k =
    IsContent-append e.contract_address (codes ", " ++ e.token_count) k.contract_address (
      IsContent-append (codes ", ") e.token_count (record { balanced = refl; single = refl })
        (IsContent-digits e.token_count k.token_count))

-- The three intents as they are written, with a space on the sides that meet an operator.
password_conjunct : Text → Text → Conjunct
unfolding conjunct
password_conjunct password tail = conjunct [] (codes "Password") password tail

psp22_conjunct : Text → Text → Text → Conjunct
unfolding conjunct
psp22_conjunct lead content tail = conjunct lead (codes "Psp22") content tail

sr25519_conjunct : Text → Conjunct
unfolding conjunct
sr25519_conjunct lead = conjunct lead (codes "Sr25519") [] []

password-IsWritten :
    (password tail : Text)
    → contains tail ampersand ≡ false
    → IsContent password
    → IsWritten (password_conjunct password tail)
unfolding password_conjunct is_whitespace
password-IsWritten password tail t k =
    IsFrame-IsWritten [] (codes "Password") password tail
      (record { led = refl; named = refl; flat = refl; before = refl; behind = t }) k

psp22-IsWritten :
    (lead content tail : Text)
    → all is_whitespace lead ≡ true
    → contains lead ampersand ≡ false
    → contains tail ampersand ≡ false
    → IsContent content
    → IsWritten (psp22_conjunct lead content tail)
unfolding psp22_conjunct is_whitespace
psp22-IsWritten lead content tail l a t k =
    IsFrame-IsWritten lead (codes "Psp22") content tail
      (record {
        led = l;
        named = refl;
        flat = refl;
        before = rw (contains-append lead (codes "Psp22(") ampersand, a);
        behind = t;
      })
      k

sr25519-IsWritten :
    (lead : Text)
    → all is_whitespace lead ≡ true
    → contains lead ampersand ≡ false
    → IsWritten (sr25519_conjunct lead)
unfolding sr25519_conjunct is_whitespace
sr25519-IsWritten lead l a =
    IsFrame-IsWritten lead (codes "Sr25519") [] []
      (record {
        led = l;
        named = refl;
        flat = refl;
        before = rw (contains-append lead (codes "Sr25519(") ampersand, a);
        behind = refl;
      })
      (record { balanced = refl; single = refl })
