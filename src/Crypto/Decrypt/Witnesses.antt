-- ===== src/Crypto/Decrypt/Witnesses.antt =====
-- The witness string of fangorn/src/crypto/cipher.rs: what is read back from witnesses that are joined
-- by commas.
use fangorn_rs.Prelude.{
  ℕ, ◌≡◌, refl, ap, ◌∙◌, Bool, true, false, not, List, [], ◌∷◌, ◌++◌, map, contains, ℕ-Eq, arith,
}
use fangorn_rs.Rust.Text.{Text, trim, trim_start, trim_end, split, is_whitespace}
use fangorn_rs.Crypto.Decrypt.{parse_witnesses}

abbrev pub comma : ℕ
comma = b','

-- A text whose first and last characters are there and are no whitespace.
abbrev pub starts_visible : Text → Bool
starts_visible [] = false
starts_visible (c ∷ s) = not (is_whitespace c)

abbrev pub ends_visible : Text → Bool
ends_visible [] = false
ends_visible (c ∷ []) = not (is_whitespace c)
ends_visible (c ∷ d ∷ s) = ends_visible (d ∷ s)

-- A witness that can stand in a witness string.
pub record IsWitness (t : Text) : Type 0 where
  pub starts : starts_visible t ≡ true
  pub ends : ends_visible t ≡ true
  pub single : contains t comma ≡ false

abbrev pub AllWitnesses : List Text → Type 0
AllWitnesses [] = Unit {0}
AllWitnesses (w ∷ ws) = IsWitness w × AllWitnesses ws

abbrev pub join_commas : List Text → Text
join_commas [] = []
join_commas (w ∷ []) = w
join_commas (w ∷ v ∷ vs) = w ++ comma ∷ join_commas (v ∷ vs)

pub starts_visible-append : (s t : Text) → starts_visible s ≡ true → starts_visible (s ++ t) ≡ true
starts_visible-append [] t h = cc
starts_visible-append (c ∷ s) t h = h

pub ends_visible-append : (s t : Text) → ends_visible t ≡ true → ends_visible (s ++ t) ≡ true
ends_visible-append [] t h = h
ends_visible-append (c ∷ []) [] h = cc
ends_visible-append (c ∷ []) (d ∷ t) h = h
ends_visible-append (c ∷ d ∷ s) t h = ends_visible-append (d ∷ s) t h

trim_end-visible : (t : Text) → ends_visible t ≡ true → trim_end t ≡ t
unfolding trim_end
trim_end-visible [] h = refl
trim_end-visible (c ∷ []) h = ground arith
trim_end-visible (c ∷ d ∷ s) h = ground (arith, trim_end-visible (d ∷ s) h)

trim_start-visible : (t : Text) → starts_visible t ≡ true → trim_start t ≡ t
unfolding trim_start
trim_start-visible [] h = refl
trim_start-visible (c ∷ s) h = ground arith

pub trim-visible : (t : Text) → starts_visible t ≡ true → ends_visible t ≡ true → trim t ≡ t
unfolding trim
trim-visible t s e = ap trim_end (trim_start-visible t s) ∙ trim_end-visible t e

pub split-last : (d : ℕ) (t : Text) → contains t d ≡ false → split d t ≡ t ∷ []
unfolding split
split-last d [] h = refl
split-last d (c ∷ t) h = ground (arith, split-last d t)

pub split-cut : (d : ℕ) (s t : Text) → contains s d ≡ false → split d (s ++ d ∷ t) ≡ s ∷ split d t
unfolding split
split-cut d [] t h = ground arith
split-cut d (c ∷ s) t h = ground (arith, split-cut d s t)

starts_visible-join :
    (w : Text) (ws : List Text) → IsWitness w → starts_visible (join_commas (w ∷ ws)) ≡ true
starts_visible-join w [] k = k.starts
starts_visible-join w (v ∷ vs) k = starts_visible-append w (comma ∷ join_commas (v ∷ vs)) k.starts

ends_visible-join :
    (w : Text) (ws : List Text)
    → IsWitness w
    → AllWitnesses ws
    → ends_visible (join_commas (w ∷ ws)) ≡ true
ends_visible-join w [] k ks = k.ends
ends_visible-join w (v ∷ vs) k ks =
    ends_visible-append w (comma ∷ join_commas (v ∷ vs))
      (ends_visible-append (comma ∷ []) (join_commas (v ∷ vs)) (ends_visible-join v vs ks.0 ks.1))

split-join :
    (w : Text) (ws : List Text)
    → IsWitness w
    → AllWitnesses ws
    → split comma (join_commas (w ∷ ws)) ≡ w ∷ ws
split-join w [] k ks = split-last comma w k.single
split-join w (v ∷ vs) k ks =
    split-cut comma w (join_commas (v ∷ vs)) k.single ∙ ap (λ l. w ∷ l) (split-join v vs ks.0 ks.1)

map-trim : (ws : List Text) → AllWitnesses ws → map trim ws ≡ ws
map-trim [] ks = refl
map-trim (w ∷ ws) ks = rw (trim-visible w ks.0.starts ks.0.ends, map-trim ws ks.1)

-- Witnesses that have no comma, and no whitespace at their ends, are read back from the string that
-- joins them by commas.
pub parse_witnesses-join :
    (w : Text) (ws : List Text)
    → IsWitness w
    → AllWitnesses ws
    → parse_witnesses (join_commas (w ∷ ws)) ≡ w ∷ ws
unfolding parse_witnesses
parse_witnesses-join w ws k ks = rw (
  trim-visible (join_commas (w ∷ ws)) (starts_visible-join w ws k) (ends_visible-join w ws k ks),
  split-join w ws k ks,
  trim-visible w k.starts k.ends,
  map-trim ws ks,
)
