-- ===== src/Routing/Table.antt =====
-- The table of src/api/nodes/routing.go against an abstract one: a function from addresses to ids.
use dps_files.Prelude.{
  ==→eq, Bool-cases, false, ==_refl, refl, ◌≢◌, none, some, [], ◌∷◌, inr, arith, inl, ◌==◌,
  Option-cases, if◌then◌else◌, list_eq, nat_eq, Option, ◌≡◌,
}
use dps_files.Prelude.Map.{erase, insert, lookup-erase, lookup-insert, Map, lookup}
use dps_files.Routing.{
  Bytes, some, NodeInfo, RoutingResult, done, failed, already_exists, not_found, DefaultRouter,
  new_default_router, insert_node, remove_node, find_id, lookup_node,
}

-- The abstract table: the id of the node at an address, if there is one.
abbrev pub Table : Type 0
Table = Bytes → Option Bytes

abbrev pub id_of : Option NodeInfo → Option Bytes
id_of none = none
id_of (some info) = some info.id

-- what a router stands for: neither the order of its entries nor their time
abbrev pub table_of : DefaultRouter → Table
table_of r address = id_of (lookup address r.nodes)

-- the table with another entry at an address
abbrev pub put : Bytes → Option Bytes → Table → Table
put address v t other = if address == other then v else t other

pub data Call : Type 0 where
  insertion : (address id : Bytes) → Call
  removal : (address : Bytes) → Call

abbrev pub call : Call → DefaultRouter → RoutingResult (Unit {0}) × DefaultRouter
call (insertion address id) r = insert_node address id r
call (removal address) r = remove_node address r

-- What a call promises of the table: the two operations fail, and change nothing, just where the
-- address is taken, or free.
abbrev pub specified : Call → Table → RoutingResult (Unit {0}) × Table
specified (insertion address id) t = elim (t address) [
  | some _ ↦ (failed already_exists, t)
  | none ↦ (done tt, put address (some id) t)
]
specified (removal address) t = elim (t address) [
  | none ↦ (failed not_found, t)
  | some _ ↦ (done tt, put address none t)
]

abbrev pub Refines :
    RoutingResult (Unit {0}) × DefaultRouter → RoutingResult (Unit {0}) × Table → Type 0
Refines r t = (r.0 ≡ t.0) × ((address : Bytes) → table_of r.1 address ≡ t.1 address)

insert_node-Refines :
    (address id : Bytes) (r : DefaultRouter)
    → Refines (insert_node address id r) (specified (insertion address id) (table_of r))
unfolding insert_node
insert_node-Refines address id r = elim (Option-cases (lookup address r.nodes)) [
  | inl e ↦ (
    ground (arith, e),
    λ other. ground (
      arith,
      e,
      lookup-insert other address (record { id = id; address = address; time = 0 }) r.nodes,
    ),
  )
  | inr (info, e) ↦ (ground (arith, e), λ other. ground (arith, e))
]

remove_node-Refines :
    (address : Bytes) (r : DefaultRouter)
    → Refines (remove_node address r) (specified (removal address) (table_of r))
unfolding remove_node
remove_node-Refines address r = elim (Option-cases (lookup address r.nodes)) [
  | inl e ↦ (ground (arith, e), λ other. ground (arith, e))
  | inr (info, e) ↦
      (ground (arith, e), λ other. ground (arith, e, lookup-erase other address r.nodes))
]

-- The routers that calls lead to.
pub data Reachable : DefaultRouter → Type 0 where
  created : (node : NodeInfo) → Reachable (new_default_router node)
  called : {r : DefaultRouter} → (c : Call) → Reachable r → Reachable (call c r).1

-- Every entry stands under its address, and no address stands twice.
abbrev IsTable : Map Bytes NodeInfo → Type 0
IsTable [] = Unit {0}
IsTable ((address, info) ∷ nodes) =
    (info.address ≡ address) × (lookup address nodes ≡ none) × IsTable nodes

insert-IsTable :
    (address : Bytes) (info : NodeInfo) (nodes : Map Bytes NodeInfo)
    → info.address ≡ address
    → lookup address nodes ≡ none
    → IsTable nodes
    → IsTable (insert address info nodes)
unfolding insert lookup
insert-IsTable address info [] same absent t = (same, refl, tt)
insert-IsTable address info ((other, old) ∷ nodes) same absent (keyed, unique, t) = ground (
  arith,
  insert-IsTable address info nodes,
  lookup-insert other address info nodes,
  ==_refl other,
)

erase-IsTable :
    (address : Bytes) (nodes : Map Bytes NodeInfo) → IsTable nodes → IsTable (erase address nodes)
unfolding erase lookup
erase-IsTable address [] t = tt
erase-IsTable address ((other, old) ∷ nodes) (keyed, unique, t) =
    ground (arith, erase-IsTable address nodes t, lookup-erase other address nodes)

call-IsTable : (c : Call) (r : DefaultRouter) → IsTable r.nodes → IsTable (call c r).1.nodes
unfolding insert_node remove_node
call-IsTable (insertion address id) r t = elim (Option-cases (lookup address r.nodes)) [
  | inl e ↦
      let info : NodeInfo = record { id = id; address = address; time = 0 } in
      ground (arith, e, insert-IsTable address info r.nodes refl e t)
  | inr (info, e) ↦ ground (arith, e, t)
]
call-IsTable (removal address) r t = elim (Option-cases (lookup address r.nodes)) [
  | inl e ↦ ground (arith, e, t)
  | inr (info, e) ↦ ground (arith, e, erase-IsTable address r.nodes t)
]

Reachable-IsTable : {r : DefaultRouter} → Reachable r → IsTable r.nodes
unfolding new_default_router
Reachable-IsTable (created node) = tt
Reachable-IsTable (called {r} c h) = call-IsTable c r (Reachable-IsTable h)

-- What Lookup finds: a node of the table with the id, or that the table has none.
abbrev pub Found : Bytes → Table → RoutingResult NodeInfo → Type 0
Found id t (done info) = (info.id ≡ id) × (t info.address ≡ some id)
Found id t (failed e) = (e ≡ not_found) × ((address : Bytes) → t address ≢ some id)

Found-cons :
    (id address : Bytes) (info : NodeInfo) (nodes : Map Bytes NodeInfo) (o : RoutingResult NodeInfo)
    → lookup address nodes ≡ none
    → (info.id == id) ≡ false
    → Found id (λ other. id_of (lookup other nodes)) o
    → Found id (λ other. id_of (lookup other ((address, info) ∷ nodes))) o
unfolding lookup
Found-cons id address info nodes (done found) unique ne (same, there) =
    (same, ground (arith, unique, there, ==→eq address found.address))
Found-cons id address info nodes (failed e) unique ne (same, absent) =
    (same, λ other there. ground (arith, ne, there, absent other, ==_refl id))

find_id-Found :
    (id : Bytes) (nodes : Map Bytes NodeInfo)
    → IsTable nodes
    → Found id (λ address. id_of (lookup address nodes)) (find_id id nodes)
unfolding find_id lookup
find_id-Found id [] t = (refl, λ address e. cc)
find_id-Found id ((address, info) ∷ nodes) (keyed, unique, t) = elim (Bool-cases (info.id == id)) [
  | inl e ↦
      rw (find_id, e)
        (==→eq info.id id e, ground (arith, keyed, ==→eq info.id id e, ==_refl address))
  | inr ne ↦
      rw (find_id, ne)
        (Found-cons id address info nodes (find_id id nodes) unique ne (find_id-Found id nodes t))
]

-- InsertNode and RemoveNode do to the abstract table what they promise: they fail, and change
-- nothing, just where the address is taken, or free.
pub call-Refines : (c : Call) (r : DefaultRouter) → Refines (call c r) (specified c (table_of r))
call-Refines (insertion address id) r = insert_node-Refines address id r
call-Refines (removal address) r = remove_node-Refines address r

-- In every router that calls lead to, Lookup by an id finds a node that the table has at its address
-- with this id, and reports that there is none only if the table has none.
pub lookup_node-Found :
    (id : Bytes) {r : DefaultRouter} → Reachable r → Found id (table_of r) (lookup_node id r)
unfolding lookup_node
lookup_node-Found id {r} h = find_id-Found id r.nodes (Reachable-IsTable h)
