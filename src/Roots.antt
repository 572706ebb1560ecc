-- ===== src/Roots.antt =====
-- roots/src/main.rs: the command line that makes keys and signs with them. Each command is a process
-- of its own over the vaults on disk. What it prints is a value, and the key that it draws is an
-- argument. The directories of rust_vault and the hex and byte forms of signatures are parameters.
pub mod Signed
pub mod Examples
use fangorn_rs.Prelude.{
  ℕ, ◌≡◌, Bool, true, false, Option, none, some, unwrap_or, length, nat_eq, if◌then◌else◌,
}
use fangorn_rs.Rust.Outcome.{Outcome, ok, panic, unwrap, unwrap_result, ◌>>=◌}
use fangorn_rs.Rust.Text.{Text}
use fangorn_rs.Rust.Bytes.{to_le_bytes}
use fangorn_rs.Crypto.KeyVault.{Bytes, KeyVaultError, Vault, and_then}
use fangorn_rs.Crypto.KeyVault.Sr25519
use fangorn_rs.Crypto.KeyVault.Sr25519.{Scheme}
use fangorn_rs.Crypto.KeyVault.Iroh
use fangorn_rs.Crypto.KeyVault.Iroh.{IrohKeys}

pub data StoreType : Type 0 where
  polkadot fangorn : StoreType

-- What every command has.
pub record Access : Type 0 where
  pub keystore_dir : Text
  pub key_name : Text
  pub vault_pswd : Text
  pub key_password : Text
  pub store_type : StoreType
  pub index : Option ℕ

pub data Commands : Type 0 where
  keygen : (access : Access) (print_mnemonic : Bool) → Commands
  inspect : (access : Access) → Commands
  sign : (access : Access) (nonce : ℕ) → Commands
  verify : (access : Access) (signature_hex : Text) (nonce : ℕ) → Commands

-- The directories of vaults. Opening one leaves the password in its `&mut` argument in some state.
pub record Disk (vault : Vault) : Type 1 where
  pub World : Type 0
  -- `Vault::open`
  pub open_dir : Text → Text → World → Option (vault.State × Text)
  pub open_or_create : Text → Text → World → Option (vault.State × Text)
  -- the vault of a directory is what a process left
  pub save : Text → vault.State → World → World
  pub open-save :
      (dir pswd : Text) (v v' : vault.State) (p : Text) (w : World)
      → open_dir dir pswd w ≡ some (v, p)
      → open_dir dir pswd (save dir v' w) ≡ some (v', p)
  pub open-create :
      (dir pswd : Text) (v v' : vault.State) (p : Text) (w : World)
      → open_or_create dir pswd w ≡ some (v, p)
      → open_dir dir pswd (save dir v' w) ≡ some (v', p)

-- `to_hex(.., false)` and `from_hex` of sp-core.
pub record HexText : Type 0 where
  pub to_hex : Bytes → Text
  pub from_hex : Text → Option Bytes
  pub from_hex-to_hex : (b : Bytes) → from_hex (to_hex b) ≡ some b

-- The bytes of a signature of sp-core, and `from_slice`.
pub record SrBytes (scheme : Scheme) : Type 0 where
  pub as_bytes_ref : scheme.Signature → Bytes
  pub from_slice : Bytes → Option scheme.Signature
  pub from_slice-as_bytes_ref : (s : scheme.Signature) → from_slice (as_bytes_ref s) ≡ some s

-- The 64 bytes of a signature of iroh.
pub record IrohBytes (keys : IrohKeys) : Type 0 where
  pub to_bytes : keys.Signature → Bytes
  pub from_bytes : Bytes → keys.Signature
  pub length-to_bytes : (s : keys.Signature) → length (to_bytes s) ≡ 64
  pub from_bytes-to_bytes : (s : keys.Signature) → from_bytes (to_bytes s) ≡ s
  pub verify-sign :
      (k : keys.SecretKey) (m : Bytes) → keys.verify (keys.public k) m (keys.sign k m) ≡ true

module _ (vault : Vault) (scheme : Scheme) (keys : IrohKeys) where
  -- What the lines that it prints show.
  pub data Output : Type 0 where
    sr25519_key : scheme.Public → Output
    iroh_key : keys.PublicKey → Output
    signature : ℕ → Text → Output
    was_verified : Bool → Output
    nothing : Output

  -- The two vaults, over the vault's password as opening left it.
  abbrev pub sr25519_vault : Access → Text → Sr25519.Sr25519KeyVault
  sr25519_vault a vault_password = Sr25519.new_store_info vault_password a.key_name a.key_password

  abbrev pub iroh_vault : Access → Text → Iroh.IrohKeyVault
  iroh_vault a vault_password =
      Iroh.new_store_info vault_password a.key_password (unwrap_or a.index 0)

  -- `.unwrap()`, and the line that is printed then.
  abbrev pub printed :
      {A : Type 0}
      → Outcome KeyVaultError A × vault.State
      → (A → Outcome KeyVaultError Output)
      → Outcome KeyVaultError Output × vault.State
  printed (m, v) line = (unwrap_result m >>= line, v)

  -- The two arms of each command.
  unfoldable pub run_keygen :
      Text
      → keys.SecretKey
      → Bool
      → Access
      → StoreType
      → Text
      → vault.State
      → Outcome KeyVaultError Output × vault.State
  unfolding Sr25519.generate_key_print_mnemonic Sr25519.generate_key Iroh.generate_key
  run_keygen phrase iroh_sk print_mnemonic a polkadot p v =
      printed
        (if print_mnemonic
          then Sr25519.generate_key_print_mnemonic vault scheme phrase (sr25519_vault a p) v
          else Sr25519.generate_key vault scheme phrase (sr25519_vault a p) v)
        (λ public_key. ok (sr25519_key public_key))
  run_keygen phrase iroh_sk print_mnemonic a fangorn p v =
      printed (Iroh.generate_key vault keys iroh_sk (iroh_vault a p) v)
        (λ public_key. ok (iroh_key public_key))

  unfoldable pub run_inspect :
      Access → StoreType → Text → vault.State → Outcome KeyVaultError Output × vault.State
  unfolding Sr25519.get_public_key Iroh.get_public_key
  run_inspect a polkadot p v =
      printed (Sr25519.get_public_key vault scheme (sr25519_vault a p) v)
        (λ public_key. ok (sr25519_key public_key))
  run_inspect a fangorn p v =
      printed (Iroh.get_public_key vault keys (iroh_vault a p) v)
        (λ public_key. ok (iroh_key public_key))

  module _ (hex : HexText) (sr_bytes : SrBytes scheme) (iroh_bytes : IrohBytes keys) where
    unfoldable pub run_sign :
        ℕ → Access → StoreType → Text → vault.State → Outcome KeyVaultError Output × vault.State
    unfolding Sr25519.sign Iroh.sign
    run_sign nonce a polkadot p v =
        printed (Sr25519.sign vault scheme (to_le_bytes 4 nonce) (sr25519_vault a p) v)
          (λ s. ok (signature nonce (hex.to_hex (sr_bytes.as_bytes_ref s))))
    run_sign nonce a fangorn p v =
        printed (Iroh.sign vault keys (to_le_bytes 4 nonce) (iroh_vault a p) v)
          (λ s. ok (signature nonce (hex.to_hex (iroh_bytes.to_bytes s))))

    -- `sig_vec.try_into().unwrap()` and `Signature::from_bytes`
    abbrev pub iroh_signature : Bytes → Outcome KeyVaultError keys.Signature
    iroh_signature sig_vec =
        if nat_eq (length sig_vec) 64 then ok (iroh_bytes.from_bytes sig_vec) else panic

    unfoldable pub run_verify :
        Text
        → ℕ
        → Access
        → StoreType
        → Text
        → vault.State
        → Outcome KeyVaultError Output × vault.State
    unfolding Sr25519.get_public_key Iroh.get_public_key
    run_verify signature_hex nonce a polkadot p v =
        printed (Sr25519.get_public_key vault scheme (sr25519_vault a p) v) (λ public_key. do
          sig_vec ← unwrap (hex.from_hex signature_hex)
          sig ← unwrap (sr_bytes.from_slice sig_vec)
          ok (was_verified (Sr25519.verify vault scheme public_key (to_le_bytes 4 nonce) sig)))
    run_verify signature_hex nonce a fangorn p v =
        printed (Iroh.get_public_key vault keys (iroh_vault a p) v) (λ public_key. do
          sig_vec ← unwrap (hex.from_hex signature_hex)
          sig ← iroh_signature sig_vec
          ok (was_verified (Iroh.verify vault keys public_key (to_le_bytes 4 nonce) sig)))

    module _ (disk : Disk vault) where
      -- Opens the vault, uses it, and leaves it on the disk, also where the use panics.
      abbrev pub with_vault :
          Text
          → Option (vault.State × Text)
          → (Text → vault.State → Outcome KeyVaultError Output × vault.State)
          → disk.World
          → Outcome KeyVaultError Output × disk.World
      with_vault dir none use_vault w = (panic, w)
      with_vault dir (some (v, p)) use_vault w =
          let (out, v') = use_vault p v in (out, disk.save dir v' w)

      -- `main` with the drawn mnemonic and key.
      unfoldable pub main :
          Text
          → keys.SecretKey
          → Option Commands
          → disk.World
          → Outcome KeyVaultError Output × disk.World
      unfolding run_keygen run_inspect run_sign run_verify
      main phrase iroh_sk none w = (ok nothing, w)
      main phrase iroh_sk (some (keygen a print_mnemonic)) w =
          with_vault a.keystore_dir (disk.open_or_create a.keystore_dir a.vault_pswd w)
            (run_keygen phrase iroh_sk print_mnemonic a a.store_type) w
      main phrase iroh_sk (some (inspect a)) w =
          with_vault a.keystore_dir (disk.open_dir a.keystore_dir a.vault_pswd w)
            (run_inspect a a.store_type) w
      main phrase iroh_sk (some (sign a nonce)) w =
          with_vault a.keystore_dir (disk.open_dir a.keystore_dir a.vault_pswd w)
            (run_sign nonce a a.store_type) w
      main phrase iroh_sk (some (verify a signature_hex nonce)) w =
          with_vault a.keystore_dir (disk.open_dir a.keystore_dir a.vault_pswd w)
            (run_verify signature_hex nonce a a.store_type) w
