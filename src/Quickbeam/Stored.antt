-- ===== src/Quickbeam/Stored.antt =====
-- What an encrypt command of quickbeam/src/main.rs that returns has stored.
use fangorn_rs.Prelude.{◌≡◌, ap, sym, ◌∙◌, some, List, map}
use fangorn_rs.Rust.Outcome.{Outcome, ok, err, panic}
use fangorn_rs.Rust.Text.{as_bytes}
use fangorn_rs.Backend.{AnyError}
use fangorn_rs.Gadget.Codec.{Bytes}
use fangorn_rs.Gadget.{Intent, parse_intents}
use fangorn_rs.Storage.IntentStore.Chain.{without_gadget}
use fangorn_rs.Crypto.AppStore.{AppStore}
use fangorn_rs.Crypto.Encrypt.{encrypt_inner, encrypt-stored}
use fangorn_rs.Crypto.Handlers.EndToEnd.{handle_encrypt-eq-ok}
use fangorn_rs.Node.Build.{pubkey_path}
use fangorn_rs.Quickbeam.{EncryptArgs, Outside, connected, encrypted, run_encrypt}
use fangorn_rs.Quickbeam.Connected.{Unfailing, PubkeyWritten, connected-Unfailing}

module _ {F : Type 0} (o : Outside F) (args : EncryptArgs) where
  abbrev store : AppStore o.World
  store = o.store args.contract_addr args.ticket

  -- The stores hold the file at the message path, encrypted, and the intents of the command.
  pub record Stored (f : F) (s : store.State) : Type 0 where
    pub message : Bytes
    pub read : o.files.read_file f args.message_path ≡ some message
    pub intents : List (Intent o.World)
    pub parsed : parse_intents o.nom o.registry args.intent ≡ ok intents
    pub sys_keys : o.SystemPublicKeys
    pub config : (o.schemes sys_keys).Config
    pub ciphertext : Bytes
    pub made :
        encrypt_inner o.nom
          ((o.schemes sys_keys).encryption config)
          store
          o.registry
          o.show_error
          message
        ≡ ok ciphertext
    pub cid : store.Cid
    pub registered :
        store.get_intent (as_bytes args.filename) s ≡ ok (some (cid, map without_gadget intents))
    pub fetched : store.fetch cid s ≡ ok (some ciphertext)

  encrypted-Stored :
      (f : F) (s s' : store.State) (m : Outcome AnyError (o.SystemPublicKeys × F))
      → Unfailing (λ r. PubkeyWritten o f r.1) m
      → encrypted o args s m ≡ (ok tt, s')
      → ¬ (args.message_path ≡ pubkey_path)
      → Stored f s'
  encrypted-Stored f s s' (ok (sys_keys, f')) (key, written) h apart =
      let (pt, config, read, configured, done) =
        handle_encrypt-eq-ok o.files o.hex (o.schemes sys_keys) store o.nom o.registry o.show_error
          args.message_path args.filename args.config_path args.intent s s' f' h in
      let (is, c, ct, parsed, made, registered, fetched) =
        encrypt-stored o.nom ((o.schemes sys_keys).encryption config) store o.registry o.show_error
          pt (as_bytes args.filename) args.intent s s' done in
      record {
        message = pt;
        read =
            sym (o.files.read-write_other f f' pubkey_path args.message_path key written apart)
            ∙ read;
        intents = is;
        parsed = parsed;
        sys_keys = sys_keys;
        config = config;
        ciphertext = ct;
        made = made;
        cid = c;
        registered = registered;
        fetched = fetched;
      }
  encrypted-Stored f s s' (err e) absurdity h apart = absurd absurdity
  encrypted-Stored f s s' panic u h apart = absurd (cc (ap (λ p. p.0) h))

  -- After an encrypt command that returns, the stores of its registry contract and ticket hold what
  -- it names: the file that was at the message path before the command, unless that is the path of
  -- the node's own public key, is encrypted under a cid, and the filename leads to the cid and to the
  -- intents that the command's string parses to, without their gadgets.
  pub run_encrypt-Stored :
      (f : F) (n : o.Network) (s s' : store.State)
      → run_encrypt o args s f n ≡ (ok tt, s')
      → ¬ (args.message_path ≡ pubkey_path)
      → Stored f s'
  unfolding run_encrypt
  run_encrypt-Stored f n s s' =
      encrypted-Stored f s s' (connected o args.node 2 f n) (connected-Unfailing o args.node 2 f n)
