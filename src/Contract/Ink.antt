-- ===== src/Contract/Ink.antt =====
-- What the contracts take from ink!: the storage type `Mapping` with its documented behaviour, the
-- message environment, and the results of messages. `Mapping` is not part of the repository, so a
-- contract is modelled over any implementation of it.
use fangorn_rs.Prelude.{
  ℕ, ◌≡◌, refl, Bool, Option, none, some, List, Eq, ◌==◌, is_some, if◌then◌else◌,
}

abbrev pub Bytes : Type 0
Bytes = List ℕ

-- 32 bytes.
abbrev pub AccountId : Type 0
AccountId = Bytes

pub data Result (E A : Type 0) : Type 0 where
  ok : A → Result E A
  err : E → Result E A

-- `ink::storage::Mapping`.
pub record Mapping (K V : Type 0) ⦃e : Eq K⦄ : Type 1 where
  pub Map : Type 0
  pub new : Map
  pub get : Map → K → Option V
  pub contains : Map → K → Bool
  pub insert : Map → K → V → Map
  -- the entry, and the map without it
  pub take : Map → K → Option V × Map
  pub get-new : (k : K) → get new k ≡ none
  pub contains-get : (m : Map) (k : K) → contains m k ≡ is_some (get m k)
  pub get-insert :
      (m : Map) (k : K) (v : V) (j : K)
      → get (insert m k v) j ≡ (if k == j then some v else get m j)
  pub take-get : (m : Map) (k : K) → (take m k).0 ≡ get m k
  pub get-take : (m : Map) (k j : K) → get (take m k).1 j ≡ (if k == j then none else get m j)

-- `self.env()`.
pub record Env : Type 0 where
  pub caller : AccountId
  pub block_timestamp : ℕ

-- A mapping as a function shows that the laws can hold.
module _ {K V : Type 0} ⦃e : Eq K⦄ where
  abbrev pub function_mapping : Mapping K V
  function_mapping = record {
    Map = K → Option V;
    new = λ k. none;
    get = λ m k. m k;
    contains = λ m k. is_some (m k);
    insert = λ m k v j. if k == j then some v else m j;
    take = λ m k. (m k, λ j. if k == j then none else m j);
    get-new = λ k. refl;
    contains-get = λ m k. refl;
    get-insert = λ m k v j. refl;
    take-get = λ m k. refl;
    get-take = λ m k j. refl;
  }
