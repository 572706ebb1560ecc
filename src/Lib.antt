-- ===== src/Lib.antt =====
-- Verification library of fangorn, a network that decrypts files for whoever meets the intents
-- registered for them.
--
-- A client encrypts a file: it parses an intent string, stores the ciphertext in a shared document
-- store and registers the intents under the filename in a contract. To decrypt, a client puts a
-- request with witnesses into the pool contract. Every node polls the pool, checks the witnesses
-- against the registered intents, sends its partial decryption to the client and attests the request.
--
-- Files, and the code that each is about:
--   Prelude      shared names, Boolean tests and lists over the native numbers
--   Rust         the language: results and panics (Outcome), strings, lines and paths (Lines),
--                bytes and decimal numbers
--   Utils        fangorn/src/utils.rs
--   Backend      fangorn/src/backend: mod.rs as a record of operations, substrate.rs (Substrate) and
--                iroh.rs (Iroh)
--   Types        fangorn/src/types.rs, and the update task of fangorn/src/node/node.rs (State)
--   Contract     contract/pool/lib.rs (RequestPool) and contract/predicate-registry/lib.rs
--                (PredicateRegistry). A message is a function from the contract's state to its result
--                and the next state; a history is a list of messages. RequestPool.Ledger and the maps
--                of PredicateRegistry.Refinement are what the contracts promise. Ink is what ink!
--                provides, and Transaction is how a call through the backend settles.
--   Gadget       fangorn/src/gadget: mod.rs (Gadget, Syntax), password.rs, psp22.rs and sr25519.rs
--   Pool         fangorn/src/pool: pool.rs, contract_pool.rs (ContractPool) and watcher.rs (Watcher)
--   Storage      fangorn/src/storage: contract_store.rs (IntentStore), iroh_docstore.rs and
--                local_store.rs (DocStore)
--   Crypto       fangorn/src/crypto: keyvault.rs (KeyVault), encrypt.rs (Encrypt), decrypt.rs and the
--                witness string of cipher.rs (Decrypt), and of cipher.rs the handler of partial
--                decryptions (Collect), the gadgets (Gadgets), the stores (Testnet), and
--                handle_encrypt and handle_decrypt (Handlers). AppStore is the interface to the
--                stores, which Testnet implements and the clients use.
--   Client       fangorn/src/client/node.rs: the handler that receives partial decryptions
--   Node         fangorn/src/node/node.rs: the key vaults of a node, its building and its connections to
--                peers (Build), and its channel (Channel)
--   Service      fangorn/src/node/service.rs: process_decryption_request (Request), the shared document
--                (Documents), hints (Hints), system keys (SystemKeys), the events of other nodes
--                (Sync), what they announce (Understood), a node that joins (Join), a network that
--                forms (Bootstrap),
--                and the config from the arguments of main.rs (Config)
--   Entmoot      entmoot/src, the terminal client as a state machine over key events: the state and the
--                menus of main.rs (App, Run) and, of menus, encryption_screen.rs (Submission,
--                Encryption), encrypt_fileselect_screen.rs (FileSelect), intents_screen.rs (Intents),
--                decrypt_screen.rs (Decryption) and key_results_screen.rs (Keys). Text areas, the file
--                explorer, the keystore, the signer and the calls into fangorn are the record of Env.
--                main.rs holds merge markers: the lower branch, with the node and the ticket, is
--                the one modelled. Strings, Accepted and Honoured tie the texts of its screens to
--                the parser of Gadget, to the witnesses of Crypto.Decrypt and to the verification.
--   Roots        roots/src/main.rs, the command line that makes keys and signs with them
--   Quickbeam    quickbeam/src/main.rs, the command line that encrypts and decrypts as a node of the
--                network: the node of Node.Build, and the handlers of Crypto. Connected is what comes
--                before a handler
--   Network      the worker of fangorn/src/node/service.rs over a run of requests (Worker), with the
--                stores of Crypto.AppStore and the pool of Pool.ContractPool
--   Fixtures     concrete stand-ins for the parameters, for the examples
--
-- State is passed explicitly: an operation takes the state and returns its outcome with the next
-- state. An outcome is `ok`, `err` or `panic`; unwrap and expect are the step from an error to a panic.
-- Integers are natural numbers with their bounds written out: counters that saturate take a minimum,
-- and conversions that fail test their range.
--
-- Loops are structural, over the list that the code walks or over the rounds that a poll goes through.
-- Decimal printing alone runs on fuel: the number plus one, which is more than its digits.
--
-- Code of other crates is a parameter: SCALE codecs, nom, SS58, hex, the hashes, the signature scheme,
-- the threshold encryption, the vault, iroh documents, the file system and the chain. Where a theorem
-- relies on their documented behaviour, that behaviour is a field or a hypothesis, and Fixtures and the
-- Examples modules have an instance.
--
-- A step that can fail in the middle leaves what it has done: of the shared document, a failing write is
-- modelled where system keys are published (SystemKeys), and elsewhere its writes succeed. The receiver
-- of a channel may be gone (Watcher, SystemKeys). The two ends of a request do not meet in one theorem:
-- a node's attestation goes to a selector that the contract does not have, and the client's node
-- drops the sender of the channel that it waits on.
--
-- Not modelled: the building of network endpoints, the reading of command lines, the psp22 contract
-- (every message is the psp22 crate's), iroh_testnet_setup beyond the stores that it makes, what the
-- terminal interface shows, drawing of random keys (a drawn key is an argument), lock contention and
-- timing.
pub mod Prelude
pub mod Rust
pub mod Utils
pub mod Backend
pub mod Types
pub mod Contract
pub mod Gadget
pub mod Pool
pub mod Storage
pub mod Crypto
pub mod Client
pub mod Node
pub mod Service
pub mod Quickbeam
pub mod Entmoot
pub mod Roots
pub mod Network
pub mod Fixtures
