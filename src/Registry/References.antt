-- ===== src/Registry/References.antt =====
-- The reference from a node to its data service.
use redstone_oracles_monorep.Prelude.{
  String, Option, none, some, List, [], ◌∷◌, ◌≡◌, refl, arith, eq_iff, All, Bool, true, false, not,
  is_some, or_default,
}
use redstone_oracles_monorep.Prelude.Dict.{get, get-put, get-remove}
use redstone_oracles_monorep.Registry.State.{
  Node, DataService, State, Input, Action, merge_node, merge_data_service,
}
use redstone_oracles_monorep.Registry.Nodes.{
  register_node, update_node_details, updated_node, remove_node, get_node_details, list_nodes,
}
use redstone_oracles_monorep.Registry.DataServices.{
  create_data_service, update_data_service, updated_service, evolve, get_data_service_details_by_id,
  list_data_services,
}
use redstone_oracles_monorep.Registry.Contract.{written, dispatch, handle, state_of, after, run}

abbrev pub service_of : Node → String
service_of n = or_default n.data_service_id ""

abbrev pub has_service : State → String → Bool
has_service s id = is_some (get s.data_services id)

-- Every registered node names a data service that exists.
pub record IsLinked (s : State) : Type 0 where
  pub linked :
      (k : String) (n : Node) → get s.nodes k ≡ some n → has_service s (service_of n) ≡ true

-- The input does not move a node to another data service.
abbrev pub keeps_service : Input → Bool
keeps_service (Input.update_node_details d) = not (is_some d.data_service_id)
keeps_service _ = true

updated_service-has_service :
    (s : State) (i id : String) (u : DataService) (caller : String) (o : Option DataService)
    → has_service s id ≡ true
    → has_service (state_of s (written (updated_service s i u caller o))) id ≡ true
updated_service-has_service s i id u caller none h = h
updated_service-has_service s i id u caller (some c) h =
    ground (arith, get-put s.data_services i id (merge_data_service c u))

-- Data services are never deleted.
pub dispatch-has_service :
    (s : State) (i : Input) (caller id : String)
    → has_service s id ≡ true
    → has_service (state_of s (dispatch s i caller)) id ≡ true
unfolding dispatch register_node update_node_details remove_node create_data_service
    update_data_service evolve get_node_details get_data_service_details_by_id list_nodes
    list_data_services
dispatch-has_service s (Input.create_data_service c) caller id h =
    ground (
      arith,
      get-put s.data_services (or_default c.id "") id (record c.rest { admin = some caller }),
    )
dispatch-has_service s (Input.update_data_service i u) caller id h =
    updated_service-has_service s i id u caller (get s.data_services i) h
dispatch-has_service s _ caller id h = ground arith

updated_node-linked :
    (s : State) (d : Node) (caller k : String) (n : Node) (o : Option Node)
    → IsLinked s
    → d.data_service_id ≡ none
    → get s.nodes caller ≡ o
    → get (state_of s (written (updated_node s d caller o))).nodes k ≡ some n
    → has_service s (service_of n) ≡ true
unfolding merge_node
updated_node-linked s d caller k n none inv h e p = inv.linked k n p
updated_node-linked s d caller k n (some c) inv h e p =
    ground (arith, get-put s.nodes caller k (merge_node c d), inv.linked caller c, inv.linked k n)

register_node-linked :
    (s : State) (d : Node) (caller k : String) (n : Node)
    → IsLinked s
    → get (state_of s (written (register_node s d caller))).nodes k ≡ some n
    → has_service s (service_of n) ≡ true
unfolding register_node
register_node-linked s d caller k n inv e =
    ground (arith, get-put s.nodes caller k d, inv.linked k n)

remove_node-linked :
    (s : State) (caller k : String) (n : Node)
    → IsLinked s
    → get (state_of s (written (remove_node s caller))).nodes k ≡ some n
    → has_service s (service_of n) ≡ true
unfolding remove_node
remove_node-linked s caller k n inv e = ground (arith, get-remove s.nodes caller k, inv.linked k n)

-- The nodes that an action other than an update leaves are old ones, or the one registered now.
dispatch-node :
    (s : State) (i : Input) (caller k : String) (n : Node)
    → IsLinked s
    → keeps_service i ≡ true
    → get (state_of s (dispatch s i caller)).nodes k ≡ some n
    → has_service s (service_of n) ≡ true
unfolding dispatch update_node_details create_data_service update_data_service evolve
    get_node_details get_data_service_details_by_id list_nodes list_data_services
dispatch-node s (Input.register_node d) caller k n inv h e =
    register_node-linked s d caller k n inv e
dispatch-node s (Input.update_node_details d) caller k n inv h e =
    updated_node-linked s d caller k n (get s.nodes caller) inv (ground arith) refl e
dispatch-node s Input.remove_node caller k n inv h e = remove_node-linked s caller k n inv e
dispatch-node s _ caller k n inv h e = ground (arith, inv.linked k n)

dispatch-IsLinked :
    (s : State) (i : Input) (caller : String)
    → IsLinked s
    → keeps_service i ≡ true
    → IsLinked (state_of s (dispatch s i caller))
dispatch-IsLinked s i caller inv h = record {
  linked = λ k n e.
      dispatch-has_service s i caller (service_of n) (dispatch-node s i caller k n inv h e);
}

-- If every node names a data service that exists, then so it is after any sequence of actions
-- none of which updates the `dataServiceId` of a node.
pub run-IsLinked :
    (s : State) (actions : List Action)
    → IsLinked s
    → All (λ a. keeps_service a.input ≡ true) actions
    → IsLinked (run s actions)
unfolding run after handle
run-IsLinked s [] inv h = inv
run-IsLinked s (a ∷ actions) inv h =
    run-IsLinked (after s a) actions (dispatch-IsLinked s a.input a.caller inv h.0) h.1

-- `updateNodeDetails` does not check the `dataServiceId` that it stores: a registered node that
-- moves to a data service that does not exist breaks the reference.
pub update_dangles :
    (s : State) (caller id : String) (n d : Node)
    → get s.nodes caller ≡ some n
    → d.data_service_id ≡ some id
    → has_service s id ≡ false
    → ¬ (IsLinked (after s (record { input = Input.update_node_details d; caller = caller })))
unfolding after handle dispatch update_node_details merge_node
update_dangles s caller id n d registered moved missing inv =
    let broken = rw registered at inv in
    ground (
      arith,
      get-put s.nodes caller caller (merge_node n d),
      eq_iff caller caller,
      broken.linked caller (merge_node n d),
    )
