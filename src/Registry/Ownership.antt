-- ===== src/Registry/Ownership.antt =====
-- Who may change what in the registry contract, over one action and over any run of actions.
use redstone_oracles_monorep.Prelude.{
  String, Option, none, some, List, [], ◌∷◌, ◌≡◌, ◌≢◌, refl, ◌∙◌, arith, eq_iff, All, Bool, false,
  any, str_eq, ◌&&◌, or_default,
}
use redstone_oracles_monorep.Prelude.Dict.{get, get-put, get-remove}
use redstone_oracles_monorep.Registry.State.{
  Node, DataService, State, Input, Action, merge_node, merge_data_service,
}
use redstone_oracles_monorep.Registry.Nodes.{
  register_node, update_node_details, updated_node, remove_node, get_node_details, list_nodes,
}
use redstone_oracles_monorep.Registry.DataServices.{
  create_data_service, update_data_service, updated_service, evolve, get_data_service_details_by_id,
  list_data_services, is_admin,
}
use redstone_oracles_monorep.Registry.Contract.{written, dispatch, handle, state_of, after, run}

updated_node-nodes_ne :
    (s : State) (d : Node) (caller k : String) (o : Option Node)
    → caller ≢ k
    → get (state_of s (written (updated_node s d caller o))).nodes k ≡ get s.nodes k
updated_node-nodes_ne s d caller k none h = refl
updated_node-nodes_ne s d caller k (some c) h =
    ground (arith, get-put s.nodes caller k (merge_node c d), eq_iff caller k)

dispatch-nodes_ne :
    (s : State) (i : Input) (caller k : String)
    → caller ≢ k
    → get (state_of s (dispatch s i caller)).nodes k ≡ get s.nodes k
unfolding dispatch register_node update_node_details remove_node create_data_service
    update_data_service evolve get_node_details get_data_service_details_by_id list_nodes
    list_data_services
dispatch-nodes_ne s (Input.register_node d) caller k h =
    ground (arith, get-put s.nodes caller k d, eq_iff caller k)
dispatch-nodes_ne s (Input.update_node_details d) caller k h =
    updated_node-nodes_ne s d caller k (get s.nodes caller) h
dispatch-nodes_ne s Input.remove_node caller k h =
    ground (arith, get-remove s.nodes caller k, eq_iff caller k)
dispatch-nodes_ne s _ caller k h = ground arith

pub after-nodes_ne :
    (s : State) (a : Action) (k : String) → a.caller ≢ k → get (after s a).nodes k ≡ get s.nodes k
unfolding after handle
after-nodes_ne s a k h = dispatch-nodes_ne s a.input a.caller k h

-- The node registered under an address is the same after any sequence of actions none of which
-- the address itself has sent: nobody else can register, change or remove it.
pub run-nodes_ne :
    (s : State) (actions : List Action) (k : String)
    → All (λ a. a.caller ≢ k) actions
    → get (run s actions).nodes k ≡ get s.nodes k
unfolding run
run-nodes_ne s [] k h = refl
run-nodes_ne s (a ∷ actions) k h = run-nodes_ne (after s a) actions k h.1 ∙ after-nodes_ne s a k h.0

module _ (s : State) (id : String) (d : DataService)
    (present : get s.data_services id ≡ some d) where
  updated_service-keeps :
      (i : String) (u : DataService) (caller : String) (o : Option DataService)
      → get s.data_services i ≡ o
      → is_admin d.admin caller ≡ false
      → get (state_of s (written (updated_service s i u caller o))).data_services id ≡ some d
  updated_service-keeps i u caller none e h = present
  updated_service-keeps i u caller (some c) e h =
      ground (arith, get-put s.data_services i id (merge_data_service c u), eq_iff i id)

  dispatch-data_services_keeps :
      (i : Input) (caller : String)
      → is_admin d.admin caller ≡ false
      → get (state_of s (dispatch s i caller)).data_services id ≡ some d
  unfolding dispatch register_node update_node_details remove_node create_data_service
      update_data_service evolve get_node_details get_data_service_details_by_id list_nodes
      list_data_services
  dispatch-data_services_keeps (Input.create_data_service c) caller h =
      let name = or_default c.id "" in
      ground (
        arith,
        get-put s.data_services name id (record c.rest { admin = some caller }),
        eq_iff name id,
      )
  dispatch-data_services_keeps (Input.update_data_service i u) caller h =
      updated_service-keeps i u caller (get s.data_services i) refl h
  dispatch-data_services_keeps _ caller h = ground arith

-- A data service is the same after any sequence of actions that its admin has not sent, creation
-- of a service of that id included; without an admin it never changes.
pub run-data_services_keeps :
    (s : State) (actions : List Action) (id : String) (d : DataService)
    → get s.data_services id ≡ some d
    → All (λ a. is_admin d.admin a.caller ≡ false) actions
    → get (run s actions).data_services id ≡ some d
unfolding run after handle
run-data_services_keeps s [] id d p h = p
run-data_services_keeps s (a ∷ actions) id d p h =
    run-data_services_keeps (after s a) actions id d
      (dispatch-data_services_keeps s id d p a.input a.caller h.0) h.1

-- `canEvolve`, and `contractAdmins.some((admin) => admin === caller)`
abbrev pub can_upgrade : Bool → List String → String → Bool
can_upgrade flag admins caller = flag && any (λ admin. str_eq admin caller) admins

record SameAuthority (s t : State) : Type 0 where
  same_flag : t.can_evolve ≡ s.can_evolve
  same_admins : t.contract_admins ≡ s.contract_admins

dispatch-SameAuthority :
    (s : State) (i : Input) (caller : String) → SameAuthority s (state_of s (dispatch s i caller))
unfolding dispatch register_node update_node_details remove_node create_data_service
    update_data_service evolve get_node_details get_data_service_details_by_id list_nodes
    list_data_services
dispatch-SameAuthority s (Input.list_nodes p) caller = ground arith
dispatch-SameAuthority s _ caller = ground arith

dispatch-evolve :
    (s : State) (i : Input) (caller : String)
    → can_upgrade s.can_evolve s.contract_admins caller ≡ false
    → (state_of s (dispatch s i caller)).evolve ≡ s.evolve
unfolding dispatch register_node update_node_details remove_node create_data_service
    update_data_service evolve get_node_details get_data_service_details_by_id list_nodes
    list_data_services
dispatch-evolve s (Input.list_nodes p) caller h = ground arith
dispatch-evolve s _ caller h = ground arith

-- No sequence of actions changes `canEvolve` or the contract's admins.
run_authority :
    (s : State) (actions : List Action)
    → ((run s actions).can_evolve ≡ s.can_evolve)
      × ((run s actions).contract_admins ≡ s.contract_admins)
unfolding run after handle
run_authority s [] = (refl, refl)
run_authority s (a ∷ actions) =
    let kept = dispatch-SameAuthority s a.input a.caller in
    let rest = run_authority (after s a) actions in
    (rest.0 ∙ kept.same_flag, rest.1 ∙ kept.same_admins)

run-evolve_from :
    (s : State) (actions : List Action) (flag : Bool) (admins : List String)
    → s.can_evolve ≡ flag
    → s.contract_admins ≡ admins
    → All (λ a. can_upgrade flag admins a.caller ≡ false) actions
    → (run s actions).evolve ≡ s.evolve
unfolding run after handle
run-evolve_from s [] flag admins p q h = refl
run-evolve_from s (a ∷ actions) flag admins p q h =
    let kept = dispatch-SameAuthority s a.input a.caller in
    run-evolve_from (after s a) actions flag admins (kept.same_flag ∙ p) (kept.same_admins ∙ q) h.1
    ∙ dispatch-evolve s a.input a.caller (rw (p, q) h.0)

-- Where the contract cannot evolve, or no sender is one of its admins, no sequence of actions
-- changes the upgrade transaction.
pub run-evolve :
    (s : State) (actions : List Action)
    → All (λ a. can_upgrade s.can_evolve s.contract_admins a.caller ≡ false) actions
    → (run s actions).evolve ≡ s.evolve
run-evolve s actions h = run-evolve_from s actions s.can_evolve s.contract_admins refl refl h
