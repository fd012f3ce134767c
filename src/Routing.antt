-- ===== src/Routing.antt =====
-- src/api/nodes/routing.go: the routing tables.
pub mod Table
mod Tests
use dps_files.Prelude.{
  ◌==◌, none, some, [], ◌∷◌, ltb, ◌||◌, length, eqb, list_eq, nat_eq, not, List, if◌then◌else◌,
  Bytes, ℕ,
}
use dps_files.Prelude.Map.{Map, lookup, insert, erase}

-- transport.NodeInfo
pub record NodeInfo : Type 0 where
  pub id : Bytes
  pub address : Bytes
  pub time : ℕ

pub data RoutingError : Type 0 where
  already_exists not_found bad_id bad_k bad_alpha : RoutingError

pub data RoutingResult {ℓ} (A : Type ℓ) : Type ℓ where
  done : A → RoutingResult A
  failed : RoutingError → RoutingResult A

pub record DefaultRouter : Type 0 where
  pub localhost : Bytes
  pub nodes : Map Bytes NodeInfo

-- NewDefaultRouter
unfoldable pub new_default_router : NodeInfo → DefaultRouter
new_default_router node = record { localhost = node.address; nodes = [] }

-- InsertNode of DefaultRouter; of the node, `Address()` and `ID()`
unfoldable pub insert_node :
    (address id : Bytes) → DefaultRouter → RoutingResult (Unit {0}) × DefaultRouter
insert_node address id r = elim (lookup address r.nodes) [
  | some _ ↦ (failed already_exists, r)
  | none ↦ (
    done tt,
    record r { nodes = insert address (record { id = id; address = address; time = 0 }) r.nodes },
  )
]

-- RemoveNode of DefaultRouter
unfoldable pub remove_node :
    (address : Bytes) → DefaultRouter → RoutingResult (Unit {0}) × DefaultRouter
remove_node address r = elim (lookup address r.nodes) [
  | none ↦ (failed not_found, r)
  | some _ ↦ (done tt, record r { nodes = erase address r.nodes })
]

-- the loop of Lookup, in the order of iteration
unfoldable pub find_id : Bytes → Map Bytes NodeInfo → RoutingResult NodeInfo
find_id id [] = failed not_found
find_id id ((_, info) ∷ nodes) =
    let rest = find_id id nodes in if info.id == id then done info else rest

-- Lookup of DefaultRouter
unfoldable pub lookup_node : Bytes → DefaultRouter → RoutingResult NodeInfo
unfolding find_id
lookup_node id r = find_id id r.nodes

pub record KademliaRouter : Type 0 where
  pub id : Bytes
  pub localhost : Bytes
  pub k : ℕ
  pub alpha : ℕ
  pub size : ℕ
  pub buckets : List (List NodeInfo)

-- NewKademliaRouter, for `k` and `a` that are not negative
unfoldable pub new_kademlia_router : NodeInfo → (k a : ℕ) → RoutingResult KademliaRouter
new_kademlia_router node k a =
    if not (eqb (length node.id) 20)
    then failed bad_id
    else if eqb k 0
    then failed bad_k
    else if eqb a 0 || ltb k a
    then failed bad_alpha
    else done (record {
      id = node.id;
      localhost = node.address;
      k = k;
      alpha = a;
      size = 0;
      buckets = [];
    })
