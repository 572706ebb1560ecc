-- ===== src/Contract/PredicateRegistry/Names.antt =====
-- `iter().position` and `Vec::swap_remove` of the standard library, as remove_predicate of
-- contract/predicate-registry/lib.rs calls them, and that they drop one entry and keep the others.
use mathlib.Core.List.{Perm, Permᴰ}
use mathlib.Core.Logic.{∥∥₁_elim}
use native.Mathlib.Nat.{ℕ_set}
use mathlib.Core.List.Perm
use fangorn_rs.Prelude.{
  ℕ, ◌+◌, ap₂, some_inj, suc, zero, ◌≡◌, refl, sym, ◌∙◌, Option, none, some, List, [], ◌∷◌, ◌++◌,
  get_elem?, set, if◌then◌else◌, ◌==◌, Eq, arith,
}

-- The index of the first equal entry.
unfoldable pub position {ℓ} : {A : Type ℓ} ⦃e : Eq A⦄ → A → List A → Option ℕ
position a [] = none
position a (x ∷ xs) =
    let rest = position a xs in
    if x == a then some zero else elim rest [ none ↦ none | some i ↦ some (suc i) ]

module _ {ℓ} {A : Type ℓ} where
  pub last : A → List A → A
  last x [] = x
  last x (y ∷ ys) = last y ys

  pub drop_last : List A → List A
  drop_last [] = []
  drop_last (x ∷ []) = []
  drop_last (x ∷ y ∷ ys) = x ∷ drop_last (y ∷ ys)

  -- The last entry is moved to the index, and the list is cut by one. Out of range the source would
  -- panic; it is called with an index that `position` found.
  unfoldable pub swap_remove : ℕ → List A → List A
  unfolding last drop_last
  swap_remove i [] = []
  swap_remove i (x ∷ xs) = drop_last (set (x ∷ xs) i (last x xs))

  last-drop_last : (y : A) (ys : List A) → Perm (last y ys ∷ drop_last (y ∷ ys)) (y ∷ ys)
  unfolding last drop_last
  last-drop_last y [] = Perm.refl (y ∷ [])
  last-drop_last y (z ∷ zs) =
      Perm.trans (Perm.swap y (last z zs) (drop_last (z ∷ zs))) (Perm.cons y (last-drop_last z zs))

  drop_last-last : (x : A) (xs : List A) → Perm (drop_last (last x xs ∷ xs)) xs
  unfolding last drop_last
  drop_last-last x [] = Perm.refl []
  drop_last-last x (y ∷ ys) = last-drop_last y ys

  drop_last-set :
      (x y l : A) (ys : List A) (i : ℕ)
      → drop_last (x ∷ set (y ∷ ys) i l) ≡ x ∷ drop_last (set (y ∷ ys) i l)
  unfolding drop_last
  drop_last-set x y l ys zero = refl
  drop_last-set x y l ys (suc i) = refl

  pub swap_remove-perm :
      (x : A) (xs : List A) (a : A) (i : ℕ)
      → get_elem? (x ∷ xs) i ≡ some a
      → Perm (a ∷ swap_remove i (x ∷ xs)) (x ∷ xs)
  unfolding swap_remove
  swap_remove-perm x xs a zero h = rw (some_inj (sym h)) (Perm.cons x (drop_last-last x xs))
  swap_remove-perm x [] a (suc i) h = cc
  swap_remove-perm x (y ∷ ys) a (suc i) h =
      rw (drop_last-set x y (last y ys) ys i)
        (Perm.trans (Perm.swap x a _) (Perm.cons x (swap_remove-perm y ys a i h)))

module _ {ℓ} {A : Type ℓ} ⦃e : Eq A⦄ where
  abbrev pub count : A → List A → ℕ
  count a [] = 0
  count a (x ∷ xs) = (if x == a then 1 else 0) + count a xs

  count-permᴰ : (a : A) {xs ys : List A} → Permᴰ xs ys → count a xs ≡ count a ys
  count-permᴰ a Permᴰ.nil = refl
  count-permᴰ a (Permᴰ.cons {l₁ = l} p q) =
      ap₂ (λ x n. (if x == a then 1 else 0) + n) p (count-permᴰ a q)
  count-permᴰ a (Permᴰ.swap p q) = rw (p, q) (omega arith)
  count-permᴰ a (Permᴰ.trans q r) = count-permᴰ a q ∙ count-permᴰ a r

  pub count-perm : (a : A) {xs ys : List A} → Perm xs ys → count a xs ≡ count a ys
  count-perm a p = ∥∥₁_elim p (ℕ_set _ _) (count-permᴰ a)

  pub count-append :
      (a : A) (front back : List A) → count a (front ++ back) ≡ count a front + count a back
  count-append a [] back = omega arith
  count-append a (x ∷ front) back = omega (arith, count-append a front back)

  pub position-get :
      (a : A) (xs : List A) (i : ℕ) → position a xs ≡ some i → get_elem? xs i ≡ some a
  unfolding position
  position-get a [] i h = cc
  position-get a (x ∷ xs) zero h = ground (arith, e.is_equal_iff x a)
  position-get a (x ∷ xs) (suc i) h = ground (arith, position-get a xs i)

  pub position-none : (a : A) (xs : List A) → position a xs ≡ none → count a xs ≡ 0
  unfolding position
  position-none a [] h = refl
  position-none a (x ∷ xs) h = ground (arith, position-none a xs)
