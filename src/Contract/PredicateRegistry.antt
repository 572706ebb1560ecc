-- ===== src/Contract/PredicateRegistry.antt =====
-- contract/predicate-registry/lib.rs: the on-chain registry that binds a filename to the identifier
-- of a ciphertext and to a predicate. Each message is a function of the registry that returns its
-- result and the new registry.
mod Names
mod Laws
mod Refinement
mod Examples
use fangorn_rs.Prelude.{Option, none, some, List, [], ◌∷◌, ◌++◌, if◌then◌else◌, ℕ-Eq, List-Eq}
use fangorn_rs.Contract.Ink.{Bytes, Result, ok, err, Mapping}
use Names.{position, swap_remove}

abbrev pub Filename : Type 0
Filename = Bytes

abbrev pub Cid : Type 0
Cid = Bytes

pub record Entry : Type 0 where
  pub cid : Cid
  pub predicate : Bytes

pub data Error : Type 0 where
  filename_already_exists filename_not_found unauthorized : Error

-- The filenames without the one at its first position, if it has one.
pub forget : Filename → List Filename → List Filename
unfolding position swap_remove
forget filename names = elim (position filename names) [
  | none ↦ names
  | some pos ↦ swap_remove pos names
]

pub data Reply : Type 0 where
  registered : Result Error (Unit {0}) → Reply
  found : Option Entry → Reply
  removed : Result Error Entry → Reply

module _ (entries : Mapping Filename Entry) where
  -- `decryption_request_pool` is written by the constructor only.
  pub record PredicateRegistry : Type 0 where
    pub predicate_registry : entries.Map
    pub filenames : List Filename
    pub decryption_request_pool : List Bytes

  unfoldable pub new : PredicateRegistry
  new = record { predicate_registry = entries.new; filenames = []; decryption_request_pool = [] }

  unfoldable pub register_predicate :
      Filename → Cid → Bytes → PredicateRegistry → Result Error (Unit {0}) × PredicateRegistry
  register_predicate filename cid predicate r =
      if entries.contains r.predicate_registry filename then (err filename_already_exists, r) else (
        ok tt,
        record r {
          predicate_registry =
              entries.insert r.predicate_registry filename
                (record { cid = cid; predicate = predicate });
          filenames = r.filenames ++ filename ∷ [];
        },
      )

  unfoldable pub read : Filename → PredicateRegistry → Option Entry
  read filename r = entries.get r.predicate_registry filename

  unfoldable pub read_all : PredicateRegistry → List Filename
  read_all r = r.filenames

  unfoldable pub remove_predicate :
      Filename → PredicateRegistry → Result Error Entry × PredicateRegistry
  unfolding forget
  remove_predicate filename r =
      let (taken, rest) = entries.take r.predicate_registry filename in
      elim taken [
        | none ↦ (err filename_not_found, record r { predicate_registry = rest })
        | some entry ↦ (
          ok entry,
          record r { predicate_registry = rest; filenames = forget filename r.filenames },
        )
      ]

  -- The messages, and what they return.
  pub data Call : Type 0 where
    registers : Filename → Cid → Bytes → Call
    reads : Filename → Call
    removes : Filename → Call

  pub call : Call → PredicateRegistry → Reply × PredicateRegistry
  call (registers filename cid predicate) r =
      let (result, r') = register_predicate filename cid predicate r in (registered result, r')
  call (reads filename) r = (found (read filename r), r)
  call (removes filename) r = let (result, r') = remove_predicate filename r in (removed result, r')

  pub run : List Call → PredicateRegistry → PredicateRegistry
  run [] r = r
  run (c ∷ cs) r = run cs (call c r).1

  pub replies : List Call → PredicateRegistry → List Reply
  replies [] r = []
  replies (c ∷ cs) r = let (reply, r') = call c r in reply ∷ replies cs r'
