-- ===== src/Gadget/Format/Scan.antt =====
-- The scanning loops under parse_intent_string of fangorn/src/gadget/mod.rs: the closing parenthesis,
-- `trim` and `split("&&")` on text of a known shape.
use fangorn_rs.Prelude.{
  ℕ, ◌+◌, ◌-◌, ◌<◌, ◌≡◌, refl, ap, ◌∙◌, true, false, Option, none, some, [], ◌∷◌, ◌++◌, arith,
  length, contains, nat_eq, if◌then◌else◌, all, ℕ-Eq,
}
use fangorn_rs.Rust.Text.{Text, trim, trim_start, trim_end, split_twice, is_whitespace}
use fangorn_rs.Gadget.Syntax.{open_paren, close_paren, find_end}

-- The depth behind a text that does not close the depth that it starts at.
abbrev pub depth_after : ℕ → Text → Option ℕ
depth_after d [] = some d
depth_after d (c ∷ s) =
    let deeper = depth_after (d + 1) s in
    let higher = depth_after (d - 1) s in
    let same = depth_after d s in
    if nat_eq c open_paren
    then deeper
    else if nat_eq c close_paren
    then (if nat_eq (d - 1) 0 then none else higher)
    else same

pub find_end-data :
    (d i : ℕ) (content tail : Text)
    → 0 < d
    → depth_after d content ≡ some 1
    → find_end d i (content ++ close_paren ∷ tail) ≡ i + length content
unfolding find_end
find_end-data d i [] tail h e = ground arith
find_end-data d i (c ∷ s) tail h e = ground (
  arith,
  find_end-data (d + 1) (i + 1) s tail,
  find_end-data (d - 1) (i + 1) s tail,
  find_end-data d (i + 1) s tail,
)

-- No parenthesis closes: the loop ends with its initial 0.
pub find_end-open : (d i n : ℕ) (s : Text) → depth_after d s ≡ some n → find_end d i s ≡ 0
unfolding find_end
find_end-open d i n [] e = refl
find_end-open d i n (c ∷ s) e = ground (
  arith,
  find_end-open (d + 1) (i + 1) n s,
  find_end-open (d - 1) (i + 1) n s,
  find_end-open d (i + 1) n s,
)

trim_end-visible :
    (xs t : Text) (c : ℕ) → is_whitespace c ≡ false → trim_end (xs ++ c ∷ t) ≡ xs ++ c ∷ trim_end t
unfolding trim_end
trim_end-visible [] t c h = ground arith
trim_end-visible (x ∷ []) t c h = ground (arith, trim_end-visible [] t c h)
trim_end-visible (x ∷ y ∷ xs) t c h = ground (arith, trim_end-visible (y ∷ xs) t c h)

trim_start-lead :
    (lead : Text) (c : ℕ) (s : Text)
    → all is_whitespace lead ≡ true
    → is_whitespace c ≡ false
    → trim_start (lead ++ c ∷ s) ≡ c ∷ s
unfolding trim_start
trim_start-lead [] c s h k = ground arith
trim_start-lead (x ∷ xs) c s h k = ground (arith, trim_start-lead xs c s)

pub split_twice-last : (d : ℕ) (p : Text) → contains p d ≡ false → split_twice d p ≡ p ∷ []
unfolding split_twice
split_twice-last d [] h = refl
split_twice-last d (a ∷ []) h = refl
split_twice-last d (a ∷ b ∷ p) h = ground (arith, split_twice-last d (b ∷ p))

pub split_twice-cut :
    (d : ℕ) (p q : Text)
    → contains p d ≡ false
    → split_twice d (p ++ d ∷ d ∷ q) ≡ p ∷ split_twice d q
unfolding split_twice
split_twice-cut d [] q h = ground arith
split_twice-cut d (a ∷ []) q h = ground (arith, split_twice-cut d [] q)
split_twice-cut d (a ∷ b ∷ p) q h = ground (arith, split_twice-cut d (b ∷ p) q)

-- `trim` of a text whose first and last visible characters are known.
pub trim-visible :
    (lead : Text) (a : ℕ) (body : Text) (c : ℕ) (tail : Text)
    → all is_whitespace lead ≡ true
    → is_whitespace a ≡ false
    → is_whitespace c ≡ false
    → trim (lead ++ a ∷ (body ++ c ∷ tail)) ≡ a ∷ (body ++ c ∷ trim_end tail)
unfolding trim
trim-visible lead a body c tail l va vc =
    ap trim_end (trim_start-lead lead a (body ++ c ∷ tail) l va)
    ∙ trim_end-visible (a ∷ body) tail c vc
