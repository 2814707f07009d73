-- ===== src/Registry/Nodes.antt =====
-- nodes/: the operations on the registered nodes.
use redstone_oracles_monorep.Prelude.{
  String, Bool, ◌&&◌, Option, none, some, ok, err, is_some, ◌>>=◌, if◌then◌else◌, or_default,
}
use redstone_oracles_monorep.Prelude.Dict.{get, put, remove}
use redstone_oracles_monorep.Registry.State.{
  Node, State, ListInputData, ContractResult, Handled, listing, node_details, truthy, merge_node,
  node_not_found, node_already_exists, invalid_node_data, data_feed_does_not_exist,
}
use redstone_oracles_monorep.Registry.Common.{list_with_pagination, get_details_by_id}

-- The test `isValidData` of registerNode.ts.
unfoldable pub is_valid_node : Node → Bool
is_valid_node d =
    truthy d.name
    && truthy d.logo
    && truthy d.description
    && truthy d.data_service_id
    && truthy d.evm_address
    && truthy d.ip_address
    && truthy d.ecdsa_public_key

unfoldable pub register_node : State → Node → String → Handled State
unfolding is_valid_node
register_node s d caller =
    let service = or_default d.data_service_id "" in
    if is_valid_node d
    then (if is_some (get s.nodes caller)
        then err (node_already_exists caller)
        else (if is_some (get s.data_services service)
            then ok (record s { nodes = put s.nodes caller d })
            else err (data_feed_does_not_exist service)))
    else err invalid_node_data

abbrev pub updated_node : State → Node → String → Option Node → Handled State
updated_node s d caller none = err (node_not_found caller)
updated_node s d caller (some c) = ok (record s { nodes = put s.nodes caller (merge_node c d) })

unfoldable pub update_node_details : State → Node → String → Handled State
update_node_details s d caller = updated_node s d caller (get s.nodes caller)

unfoldable pub remove_node : State → String → Handled State
remove_node s caller =
    if is_some (get s.nodes caller)
    then ok (record s { nodes = remove s.nodes caller })
    else err (node_not_found caller)

unfoldable pub get_node_details : State → Option String → Handled ContractResult
get_node_details s address = do
  details ← get_details_by_id address s.nodes
  ok (node_details details)

unfoldable pub list_nodes : State → Option ListInputData → ContractResult
list_nodes s pagination = listing (list_with_pagination pagination s.nodes)
