-- ===== src/Crypto/Gadgets.antt =====
-- fangorn/src/crypto/cipher.rs: the gadgets that `iroh_testnet_setup` registers, which are those of
-- the node in fangorn/src/node/service.rs.
use fangorn_rs.Prelude.{◌≡◌, refl, some}
use fangorn_rs.Rust.Text.{Text, codes}
use fangorn_rs.Utils.{Ss58}
use fangorn_rs.Backend.{Backend}
use fangorn_rs.Gadget.Codec.{Bytes}
use fangorn_rs.Gadget.{GadgetRegistry, new, register, get_gadget}
use fangorn_rs.Gadget.Password.{password_gadget}
use fangorn_rs.Gadget.Psp22.{BalanceCodec, psp22_gadget}
use fangorn_rs.Gadget.Sr25519.{Hex, SignatureChain, sr25519_gadget}

module _ (S : Type 0) (ss58 : Ss58) (hex : Hex) (chain : SignatureChain S) (codec : BalanceCodec)
    (backend : Backend S Bytes Text Bytes) (sha256 : Bytes → Bytes) where
  unfoldable pub gadget_registry : GadgetRegistry S
  gadget_registry =
      register (sr25519_gadget S ss58 hex chain)
        (register (psp22_gadget S ss58 codec backend) (register (password_gadget S sha256) new))

  -- Each of the three types has its gadget.
  pub get_gadget-gadget_registry :
      (get_gadget gadget_registry (codes "Password") ≡ some (password_gadget S sha256))
      × (get_gadget gadget_registry (codes "Psp22") ≡ some (psp22_gadget S ss58 codec backend))
      × (get_gadget gadget_registry (codes "Sr25519") ≡ some (sr25519_gadget S ss58 hex chain))
  unfolding gadget_registry get_gadget register password_gadget psp22_gadget sr25519_gadget
  get_gadget-gadget_registry = (refl, refl, refl)
