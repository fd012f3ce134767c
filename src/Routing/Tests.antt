-- ===== src/Routing/Tests.antt =====
-- Runs of the routing table on concrete inputs.
use dps_files.Prelude.{[], ◌∷◌, text, list_eq, nat_eq}
use dps_files.Routing.{DefaultRouter, NodeInfo, new_default_router, lookup_node}
use dps_files.Routing.Table.{
  call, insertion, removal, specified, table_of, Refines, call-Refines, created, called, Found,
  lookup_node-Found,
}

abbrev router : DefaultRouter
router = record {
  localhost = text "a:1";
  nodes = (text "b:2", record { id = text "b"; address = text "b:2"; time = 0 }) ∷ [];
}

call-Refines_example :
    Refines
      (call (insertion (text "b:2") (text "c")) router)
      (specified (insertion (text "b:2") (text "c")) (table_of router))
call-Refines_example = call-Refines (insertion (text "b:2") (text "c")) router

abbrev calls : DefaultRouter → DefaultRouter
calls r = (call (removal (text "c:3")) (call (insertion (text "b:2") (text "b")) r).1).1

abbrev node : NodeInfo
node = record { id = text "a"; address = text "a:1"; time = 4 }

lookup_node-Found_example :
    Found
      (text "b")
      (table_of (calls (new_default_router node)))
      (lookup_node (text "b") (calls (new_default_router node)))
lookup_node-Found_example =
    lookup_node-Found (text "b")
      (called (removal (text "c:3")) (called (insertion (text "b:2") (text "b")) (created node)))
