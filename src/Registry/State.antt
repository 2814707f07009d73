-- ===== src/Registry/State.antt =====
-- types.ts of the registry contract: the contract's state, its inputs and its results.
-- A field that a JSON input may lack is an `Option`, also where a handler checks it at run time
-- and the TypeScript type says that it is there.
use redstone_oracles_monorep.Prelude.{
  String, Bool, false, not, Option, none, some, List, Result, ℤ, str_eq, override,
}
use redstone_oracles_monorep.Prelude.Dict.{Dict}

-- `Node`, and `Partial<Node>`: the same record, since each field may be missing in stored JSON.
pub record Node : Type 0 where
  pub name : Option String
  pub logo : Option String
  pub description : Option String
  pub data_service_id : Option String
  pub evm_address : Option String
  pub ip_address : Option String
  pub ecdsa_public_key : Option String
  pub url : Option String
  pub date_added : Option String

pub record DataService : Type 0 where
  pub name : Option String
  pub manifest_tx_id : Option String
  pub logo : Option String
  pub description : Option String
  pub admin : Option String

-- `RedstoneOraclesState`, with the fields of `EvolveState`
pub record State : Type 0 where
  pub can_evolve : Bool
  pub evolve : Option String
  pub contract_admins : List String
  pub nodes : Dict Node
  pub data_services : Dict DataService

pub record ListInputData : Type 0 where
  pub limit : Option ℤ
  pub start_after : Option ℤ

pub record CreateDataServiceInputData : Type 0 where
  pub id : Option String
  pub rest : DataService

-- `RedstoneOraclesInput`: the function's name with the data that goes with it.
pub data Input : Type 0 where
  list_nodes list_data_services : Option ListInputData → Input
  get_node_details get_data_service_details_by_id : Option String → Input
  register_node update_node_details : Node → Input
  remove_node : Input
  create_data_service : CreateDataServiceInputData → Input
  update_data_service : String → DataService → Input
  evolve : String → Input
  unrecognized : String → Input

-- `RedstoneOraclesAction`
pub record Action : Type 0 where
  pub input : Input
  pub caller : String

-- The `ContractError`s that the handlers throw.
pub data ContractError : Type 0 where
  node_not_found node_already_exists : String → ContractError
  invalid_node_data invalid_data_feed_data : ContractError
  data_feed_does_not_exist data_feed_not_found data_feed_already_exists : String → ContractError
  only_admin_can_update : ContractError
  cannot_evolve only_admin_can_evolve : ContractError
  missing_oracle_identifier : ContractError
  oracle_does_not_exist : String → ContractError
  function_not_recognized : String → ContractError

-- `NodeWithAddress` and `DataServiceWithId`
pub record Identified (A : Type 0) : Type 0 where
  pub details : A
  pub identifier : String

pub data ContractResult : Type 0 where
  state : State → ContractResult
  listing : List String → ContractResult
  node_details : Identified Node → ContractResult
  data_service_details : Identified DataService → ContractResult

abbrev pub Handled : Type 0 → Type 0
Handled A = Result ContractError A

-- `if (value)` on a string that may be missing
abbrev pub truthy : Option String → Bool
truthy none = false
truthy (some s) = not (str_eq s "")

-- `{ ...current, ...data }` on nodes and on data services
unfoldable pub merge_node : Node → Node → Node
merge_node c d = record {
  name = override c.name d.name;
  logo = override c.logo d.logo;
  description = override c.description d.description;
  data_service_id = override c.data_service_id d.data_service_id;
  evm_address = override c.evm_address d.evm_address;
  ip_address = override c.ip_address d.ip_address;
  ecdsa_public_key = override c.ecdsa_public_key d.ecdsa_public_key;
  url = override c.url d.url;
  date_added = override c.date_added d.date_added;
}

unfoldable pub merge_data_service : DataService → DataService → DataService
merge_data_service c d = record {
  name = override c.name d.name;
  manifest_tx_id = override c.manifest_tx_id d.manifest_tx_id;
  logo = override c.logo d.logo;
  description = override c.description d.description;
  admin = override c.admin d.admin;
}
