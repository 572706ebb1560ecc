-- ===== src/Quickbeam/Connected.antt =====
-- What comes before the handlers of quickbeam/src/main.rs gives no error: it panics, or it returns with
-- the file of the node's public key written.
use fangorn_rs.Prelude.{ℕ, ◌≡◌, refl, Option, none, some, List, [], ◌∷◌, ◌++◌}
use fangorn_rs.Rust.Outcome.{Outcome, ok, err, panic, unwrap, unwrap_result, ◌>>=◌}
use fangorn_rs.Rust.Text.{Text, codes, as_bytes}
use fangorn_rs.Backend.{AnyError}
use fangorn_rs.Types.{VaultConfig}
use fangorn_rs.Crypto.KeyVault.Iroh
use fangorn_rs.Node.{build_keys}
use fangorn_rs.Node.Build.{
  Endpoints, blobs_alpn, docs_alpn, gossip_alpn, pubkey_path,
  connect_to_peer_for_multiple_protocols, connect_all, try_connect_peers, build,
}
use fangorn_rs.Quickbeam.{NodeArgs, Outside, build_node, connected}

-- A call that panics, or returns what satisfies a predicate.
abbrev pub Unfailing : {A : Type 0} → (A → Type 0) → Outcome AnyError A → Type 0
Unfailing P (ok a) = P a
Unfailing P (err e) = ⊥
Unfailing P panic = Unit {0}

abbrev Any : {A : Type 0} → A → Type 0
Any a = Unit {0}

unwrap-Unfailing : {A : Type 0} (o : Option A) → Unfailing (λ a. o ≡ some a) (unwrap o)
unwrap-Unfailing none = tt
unwrap-Unfailing (some a) = refl

unwrap_result-Unfailing : {E A : Type 0} (m : Outcome E A) → Unfailing Any (unwrap_result m)
unwrap_result-Unfailing (ok a) = tt
unwrap_result-Unfailing (err e) = tt
unwrap_result-Unfailing panic = tt

>>=-Unfailing :
    {A B : Type 0} (P : A → Type 0) (Q : B → Type 0) (m : Outcome AnyError A)
    (next : A → Outcome AnyError B)
    → Unfailing P m
    → ((a : A) → P a → Unfailing Q (next a))
    → Unfailing Q (m >>= next)
>>=-Unfailing P Q (ok a) next h k = k a h
>>=-Unfailing P Q (err e) next h k = h
>>=-Unfailing P Q panic next h k = tt

unwrapped :
    {A B : Type 0} (Q : B → Type 0) (o : Option A) (next : A → Outcome AnyError B)
    → ((a : A) → o ≡ some a → Unfailing Q (next a))
    → Unfailing Q (unwrap o >>= next)
unwrapped Q o next = >>=-Unfailing (λ a. o ≡ some a) Q (unwrap o) next (unwrap-Unfailing o)

unwrapped_result :
    {E A B : Type 0} (Q : B → Type 0) (m : Outcome E A) (next : A → Outcome AnyError B)
    → ((a : A) → Unfailing Q (next a))
    → Unfailing Q (unwrap_result m >>= next)
unwrapped_result Q m next k =
    >>=-Unfailing Any Q (unwrap_result m) next (unwrap_result-Unfailing m) λ a _. k a

connect-Unfailing :
    {N SK PK Addr : Type 0} (iroh : Endpoints N SK PK Addr) (peer : Addr) (n : N)
    → Unfailing Any (connect_to_peer_for_multiple_protocols iroh peer n)
unfolding connect_to_peer_for_multiple_protocols
connect-Unfailing iroh peer n = unwrapped Any (iroh.connect peer blobs_alpn n) _ λ n1 _.
    unwrapped Any (iroh.connect peer docs_alpn n1) _ λ n2 _. any (iroh.connect peer gossip_alpn n2)
  where
    any : {A : Type 0} (o : Option A) → Unfailing Any (unwrap o)
    any none = tt
    any (some a) = tt

connect_all-Unfailing :
    {N SK PK Addr : Type 0} (iroh : Endpoints N SK PK Addr) (peers : List Addr) (n : N)
    → Unfailing Any (connect_all iroh peers n)
unfolding connect_all
connect_all-Unfailing iroh [] n = tt
connect_all-Unfailing iroh (peer ∷ peers) n =
    >>=-Unfailing Any Any (connect_to_peer_for_multiple_protocols iroh peer n) _
      (connect-Unfailing iroh peer n) λ n' _. connect_all-Unfailing iroh peers n'

module _ {F : Type 0} (o : Outside F) where
  abbrev pub PubkeyWritten : F → F → Type 0
  PubkeyWritten f f' = (key : Text) × (o.files.write_file f pubkey_path key ≡ some f')

  build_node-Unfailing :
      (config : VaultConfig) (index : ℕ) (f : F) (n : o.Network)
      → Unfailing (λ r. PubkeyWritten f r.0) (build_node o config index f n)
  unfolding build_node build
  build_node-Unfailing config index f n =
      >>=-Unfailing (λ r. PubkeyWritten f r.1.0) _
        (build o.vault o.open_or_create o.keys o.ste o.sk o.rng o.iroh o.files 4000 index config f
          n)
        _
        (unwrapped_result _
          (build_keys o.vault o.open_or_create o.keys o.ste o.sk o.rng config index) _
          λ made.
            let secret = Iroh.get_secret_key o.vault o.keys made.1 made.0 in
            let public = Iroh.get_public_key o.vault o.keys made.1 secret.1 in
            unwrapped_result _ secret.0 _ λ secret_key. unwrapped_result _ public.0 _ λ public_key.
              unwrapped _ (o.iroh.bind secret_key public_key 4000 n) _ λ n' _.
                let key = as_bytes (o.iroh.id n' ++ codes "\n") in
                unwrapped _ (o.files.write_file f pubkey_path key) _ λ f' done. (key, done))
        λ r written. written

  pub connected-Unfailing :
      (args : NodeArgs) (index : ℕ) (f : F) (n : o.Network)
      → Unfailing (λ r. PubkeyWritten f r.1) (connected o args index f n)
  unfolding connected try_connect_peers
  connected-Unfailing args index f n =
      unwrapped _ (o.files.read_file f args.system_keys_dir) _ λ bytes _.
        unwrapped _ (o.deserialize_compressed bytes) _ λ sys_keys _.
          >>=-Unfailing (λ r. PubkeyWritten f r.0) _ (build_node o args.vault_config index f n) _
            (build_node-Unfailing args.vault_config index f n)
            λ built written.
              unwrapped _ (o.endpoint_addr args.bootstrap_pubkey args.bootstrap_url) _ λ boot _.
                >>=-Unfailing Any _ (connect_all o.iroh (boot ∷ []) built.1) _
                  (connect_all-Unfailing o.iroh (boot ∷ []) built.1) λ n' _. written
