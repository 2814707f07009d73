-- ===== src/Registry/Lifecycle.antt =====
-- What a client sees of a node through its registration and removal.
use redstone_oracles_monorep.Prelude.{
  String, none, some, ◌≡◌, ◌↔◌, arith, eq_iff, ok, err, true, false, str_eq,
}
use redstone_oracles_monorep.Prelude.Dict.{get, put, remove, get-put, get-remove}
use redstone_oracles_monorep.Registry.State.{
  Node, State, node_details, node_already_exists, oracle_does_not_exist, node_not_found,
}
use redstone_oracles_monorep.Registry.Common.{get_details_by_id}
use redstone_oracles_monorep.Registry.Nodes.{
  is_valid_node, register_node, remove_node, get_node_details,
}
use redstone_oracles_monorep.Registry.References.{has_service, service_of}

-- `registerNode` succeeds exactly if all required fields are given and not empty, the sender has
-- no node yet, and the data service exists; and it adds that node and changes nothing else.
register_node_iff :
    (s t : State) (d : Node) (caller : String)
    → (register_node s d caller ≡ ok t) ↔ (
        (is_valid_node d ≡ true)
        × (get s.nodes caller ≡ none)
        × (has_service s (service_of d) ≡ true)
        × (t ≡ record s { nodes = put s.nodes caller d }))
unfolding register_node
register_node_iff s t d caller = ground arith

get_node_details-some :
    (s : State) (k : String) (n : Node)
    → str_eq k "" ≡ false
    → get s.nodes k ≡ some n
    → get_node_details s (some k) ≡ ok (node_details (record { details = n; identifier = k }))
unfolding get_node_details get_details_by_id
get_node_details-some s k n h e = rw (h, e)

get_node_details-none :
    (s : State) (k : String)
    → str_eq k "" ≡ false
    → get s.nodes k ≡ none
    → get_node_details s (some k) ≡ err (oracle_does_not_exist k)
unfolding get_node_details get_details_by_id
get_node_details-none s k h e = rw (h, e)

-- A node that has just been registered is found under its address, which must not be empty; the
-- address cannot register again until it has removed its node, and then it can.
pub register_lifecycle :
    (s t : State) (d : Node) (caller : String)
    → register_node s d caller ≡ ok t
    → str_eq caller "" ≡ false
    → (get_node_details t (some caller)
        ≡ ok (node_details (record { details = d; identifier = caller })))
      × (register_node t d caller ≡ err (node_already_exists caller))
      × (u : State) × (remove_node t caller ≡ ok u)
      × (get_node_details u (some caller) ≡ err (oracle_does_not_exist caller))
      × (remove_node u caller ≡ err (node_not_found caller))
      × (register_node u d caller ≡ ok (record u { nodes = put u.nodes caller d }))
register_lifecycle s t d caller h named = (
  get_node_details-some t caller d named stored,
  again,
  u,
  removed,
  get_node_details-none u caller named gone,
  unfold remove_node in rw gone,
  unfold register_node in ground (arith, gone, parts),
)
  where
    parts :
        (is_valid_node d ≡ true)
        × (get s.nodes caller ≡ none)
        × (has_service s (service_of d) ≡ true)
        × (t ≡ record s { nodes = put s.nodes caller d })
    parts = (register_node_iff s t d caller).0 h

    stored : get t.nodes caller ≡ some d
    stored = ground (arith, parts, get-put s.nodes caller caller d, eq_iff caller caller)

    again : register_node t d caller ≡ err (node_already_exists caller)
    again = unfold register_node in ground (arith, stored, parts)

    u : State
    u = record t { nodes = remove t.nodes caller }

    removed : remove_node t caller ≡ ok u
    removed = unfold remove_node in rw stored

    gone : get u.nodes caller ≡ none
    gone = ground (arith, get-remove t.nodes caller caller, eq_iff caller caller)
