-- ===== src/Crypto/KeyVault/Names.antt =====
-- The names under which fangorn/src/crypto/keyvault.rs stores the keys of the nodes.
use fangorn_rs.Prelude.{ℕ, ◌≡◌, refl, false, ◌==◌, list_eq_iff, ℕ-Eq, List-Eq, append-cancel, arith}
use fangorn_rs.Rust.Text.{Text, codes}
use fangorn_rs.Rust.Decimal.{show_ℕ-injective}
use fangorn_rs.Crypto.KeyVault.Iroh.{iroh_key_name}
use fangorn_rs.Crypto.KeyVault.Ste.{ste_key_name}

-- Two names that are equal as texts are one name.
pub ==-false : (xs ys : Text) → ¬ (xs ≡ ys) → (xs == ys) ≡ false
==-false xs ys h = ground (arith, list_eq_iff xs ys)

pub iroh_key_name-injective : (i j : ℕ) → ¬ (i ≡ j) → (iroh_key_name i == iroh_key_name j) ≡ false
iroh_key_name-injective i j h =
    ==-false (iroh_key_name i) (iroh_key_name j)
      (λ e. h (show_ℕ-injective i j (append-cancel (codes "iroh_key_idx_") e)))

pub ste_key_name-injective : (i j : ℕ) → ¬ (i ≡ j) → (ste_key_name i == ste_key_name j) ≡ false
ste_key_name-injective i j h =
    ==-false (ste_key_name i) (ste_key_name j)
      (λ e. h (show_ℕ-injective i j (append-cancel (codes "ste_key_idx_") e)))

pub iroh_key_name-ste : (i j : ℕ) → (iroh_key_name i == ste_key_name j) ≡ false
iroh_key_name-ste i j = refl
