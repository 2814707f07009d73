-- ===== src/Registry/Contract.antt =====
-- redstone-oracle-registry.contract.ts: the dispatch of an action to its handler.
use redstone_oracles_monorep.Prelude.{String, List, [], ◌∷◌, ok, err, ◌>>=◌}
use redstone_oracles_monorep.Registry.State.{
  State, Input, Action, ContractResult, Handled, state, function_not_recognized,
}
use redstone_oracles_monorep.Registry.Nodes
use redstone_oracles_monorep.Registry.DataServices

-- `return { state }`
abbrev pub written : Handled State → Handled ContractResult
written r = do s ← r; ok (state s)

-- The `switch (input.function)`.
unfoldable pub dispatch : State → Input → String → Handled ContractResult
dispatch s (Input.list_nodes p) caller = ok (Nodes.list_nodes s p)
dispatch s (Input.get_node_details a) caller = Nodes.get_node_details s a
dispatch s (Input.register_node d) caller = written (Nodes.register_node s d caller)
dispatch s (Input.update_node_details d) caller = written (Nodes.update_node_details s d caller)
dispatch s Input.remove_node caller = written (Nodes.remove_node s caller)
dispatch s (Input.list_data_services p) caller = ok (DataServices.list_data_services s p)
dispatch s (Input.get_data_service_details_by_id i) caller =
    DataServices.get_data_service_details_by_id s i
dispatch s (Input.create_data_service d) caller =
    written (DataServices.create_data_service s d caller)
dispatch s (Input.update_data_service i u) caller =
    written (DataServices.update_data_service s i u caller)
dispatch s (Input.evolve t) caller = written (DataServices.evolve s t caller)
dispatch s (Input.unrecognized f) caller = err (function_not_recognized f)

unfoldable pub handle : State → Action → Handled ContractResult
unfolding dispatch
handle s a = dispatch s a.input a.caller

-- The state that an action leaves: an action that throws, or that only reads, leaves it alone.
abbrev pub state_of : State → Handled ContractResult → State
state_of s (ok (state t)) = t
state_of s (ok r) = s
state_of s (err e) = s

unfoldable pub after : State → Action → State
after s a = state_of s (handle s a)

unfoldable pub run : State → List Action → State
run s [] = s
run s (a ∷ actions) = run (after s a) actions
