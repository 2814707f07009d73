-- ===== src/Registry/DataServices.antt =====
-- data-services/ and evolve.ts: the operations on the data services, and the contract's upgrade.
use redstone_oracles_monorep.Prelude.{
  String, Bool, false, ◌&&◌, Option, none, some, ok, err, is_some, ◌>>=◌, if◌then◌else◌, or_default,
  any, str_eq,
}
use redstone_oracles_monorep.Prelude.Dict.{get, put}
use redstone_oracles_monorep.Registry.State.{
  DataService, State, ListInputData, CreateDataServiceInputData, ContractResult, Handled, listing,
  data_service_details, truthy, merge_data_service, invalid_data_feed_data, data_feed_not_found,
  data_feed_already_exists, only_admin_can_update, cannot_evolve, only_admin_can_evolve,
}
use redstone_oracles_monorep.Registry.Common.{list_with_pagination, get_details_by_id}

-- The test `isValidData` of createDataService.ts.
unfoldable pub is_valid_data_service : CreateDataServiceInputData → Bool
is_valid_data_service d =
    truthy d.id
    && truthy d.rest.name
    && truthy d.rest.logo
    && truthy d.rest.description
    && truthy d.rest.manifest_tx_id

unfoldable pub create_data_service : State → CreateDataServiceInputData → String → Handled State
unfolding is_valid_data_service
create_data_service s d caller =
    let id = or_default d.id "" in
    if is_valid_data_service d
    then (if is_some (get s.data_services id)
        then err (data_feed_already_exists id)
        else ok (record s {
          data_services = put s.data_services id (record d.rest { admin = some caller });
        }))
    else err invalid_data_feed_data

-- `caller === admin`, for an admin that may be missing
abbrev pub is_admin : Option String → String → Bool
is_admin none caller = false
is_admin (some a) caller = str_eq caller a

abbrev pub updated_service :
    State → String → DataService → String → Option DataService → Handled State
updated_service s id update caller none = err (data_feed_not_found id)
updated_service s id update caller (some c) =
    if is_admin c.admin caller
    then ok (record s { data_services = put s.data_services id (merge_data_service c update) })
    else err only_admin_can_update

unfoldable pub update_data_service : State → String → DataService → String → Handled State
update_data_service s id update caller = updated_service s id update caller (get s.data_services id)

unfoldable pub get_data_service_details_by_id : State → Option String → Handled ContractResult
get_data_service_details_by_id s id = do
  details ← get_details_by_id id s.data_services
  ok (data_service_details details)

unfoldable pub list_data_services : State → Option ListInputData → ContractResult
list_data_services s pagination = listing (list_with_pagination pagination s.data_services)

unfoldable pub evolve : State → String → String → Handled State
evolve s transaction_id caller =
    if s.can_evolve
    then (if any (λ admin. str_eq admin caller) s.contract_admins
        then ok (record s { evolve = some transaction_id })
        else err only_admin_can_evolve)
    else err cannot_evolve
