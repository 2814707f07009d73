-- ===== src/Registry/Examples.antt =====
-- Runs of the registry contract, and its theorems at concrete inputs.
use redstone_oracles_monorep.Prelude.{
  ℕ, String, none, some, List, [], ◌∷◌, ◌≡◌, ◌≢◌, refl, arith, eq_iff, ok, err, true, negsuc,
}
use redstone_oracles_monorep.Prelude.Dict.{Dict, get, put, keys}
use redstone_oracles_monorep.Registry.State.{
  Node, DataService, State, Input, Action, node_details, node_already_exists, oracle_does_not_exist,
  node_not_found, only_admin_can_evolve, merge_node,
}
use redstone_oracles_monorep.Registry.Common.{list_with_pagination}
use redstone_oracles_monorep.Registry.Nodes.{
  register_node, update_node_details, remove_node, get_node_details,
}
use redstone_oracles_monorep.Registry.DataServices
use redstone_oracles_monorep.Registry.Contract.{handle, after, run}
use redstone_oracles_monorep.Registry.Ownership.{run-nodes_ne, run-data_services_keeps, run-evolve}
use redstone_oracles_monorep.Registry.References.{IsLinked, run-IsLinked, update_dangles}
use redstone_oracles_monorep.Registry.Pages.{pages, pages-keys}
use redstone_oracles_monorep.Registry.Lifecycle.{register_lifecycle}

abbrev prices : DataService
prices = record {
  name = some "Prices";
  manifest_tx_id = some "tx0";
  logo = some "logo";
  description = some "prices";
  admin = some "adm";
}

abbrev blank : Node
blank = record {
  name = none;
  logo = none;
  description = none;
  data_service_id = none;
  evm_address = none;
  ip_address = none;
  ecdsa_public_key = none;
  url = none;
  date_added = none;
}

abbrev node_a : Node
node_a = record blank {
  name = some "A";
  logo = some "l";
  description = some "d";
  data_service_id = some "prices";
  evm_address = some "0x1";
  ip_address = some "1.1.1.1";
  ecdsa_public_key = some "key";
}

abbrev empty_state : State
empty_state = record {
  can_evolve = true;
  evolve = none;
  contract_admins = "root" ∷ [];
  nodes = [];
  data_services = ("prices", prices) ∷ [];
}

abbrev with_a : State
with_a = record empty_state { nodes = ("a", node_a) ∷ [] }

abbrev register_a : Action
register_a = record { input = Input.register_node node_a; caller = "a" }

abbrev steps : List Action
steps =
    record { input = Input.remove_node; caller = "b" }
    ∷ record { input = Input.update_data_service "prices" prices; caller = "b" }
    ∷ record { input = Input.evolve "tx1"; caller = "b" }
    ∷ []

registered : register_node empty_state node_a "a" ≡ ok with_a
unfolding register_node get put
registered = refl

abbrev three : Dict ℕ
three = ("a", 1) ∷ ("b", 2) ∷ ("c", 3) ∷ []

list_last :
    list_with_pagination (some (record { limit = none; start_after = some (negsuc 0) })) three
    ≡ "c" ∷ []
unfolding list_with_pagination keys
list_last = refl

evolve_refused :
    handle empty_state (record { input = Input.evolve "tx1"; caller = "b" })
    ≡ err only_admin_can_evolve
unfolding handle DataServices.evolve
evolve_refused = refl

evolved :
    (after empty_state (record { input = Input.evolve "tx1"; caller = "root" })).evolve ≡ some "tx1"
unfolding after handle DataServices.evolve
evolved = refl

b_not_a : ◌≢◌ {A = String} "b" "a"
b_not_a e = cc ((eq_iff "b" "a").1 e)

run-nodes_ne_example : get (run with_a steps).nodes "a" ≡ get with_a.nodes "a"
run-nodes_ne_example = run-nodes_ne with_a steps "a" (b_not_a, (b_not_a, (b_not_a, tt)))

run-data_services_keeps_example : get (run with_a steps).data_services "prices" ≡ some prices
unfolding get
run-data_services_keeps_example =
    run-data_services_keeps with_a steps "prices" prices refl (refl, (refl, (refl, tt)))

run-evolve_example : (run with_a steps).evolve ≡ none
run-evolve_example = run-evolve with_a steps (refl, (refl, (refl, tt)))

empty_state-IsLinked : IsLinked empty_state
unfolding get
empty_state-IsLinked = record { linked = λ k n e. cc }

with_a-IsLinked : IsLinked with_a
unfolding run after handle register_node get put
with_a-IsLinked = run-IsLinked empty_state (register_a ∷ []) empty_state-IsLinked (refl, tt)

run-IsLinked_example : IsLinked (run empty_state (register_a ∷ steps))
run-IsLinked_example =
    run-IsLinked empty_state (register_a ∷ steps) empty_state-IsLinked
      (refl, (refl, (refl, (refl, tt))))

update_dangles_example : ¬ (
    IsLinked (
      after with_a (record {
        input = Input.update_node_details (record blank { data_service_id = some "gone" });
        caller = "a";
      })))
unfolding get
update_dangles_example =
    update_dangles with_a "a" "gone" node_a (record blank { data_service_id = some "gone" }) refl
      refl refl

pages-keys_example : pages 2 2 three ≡ "a" ∷ "b" ∷ "c" ∷ []
unfolding keys
pages-keys_example = pages-keys 2 1 three (omega arith)

register_lifecycle_example :
    (get_node_details with_a (some "a")
      ≡ ok (node_details (record { details = node_a; identifier = "a" })))
    × (register_node with_a node_a "a" ≡ err (node_already_exists "a"))
    × (u : State) × (remove_node with_a "a" ≡ ok u)
    × (get_node_details u (some "a") ≡ err (oracle_does_not_exist "a"))
    × (remove_node u "a" ≡ err (node_not_found "a"))
    × (register_node u node_a "a" ≡ ok (record u { nodes = put u.nodes "a" node_a }))
register_lifecycle_example = register_lifecycle empty_state with_a node_a "a" registered refl

abbrev url_1 : Node
url_1 = record blank { url = some "u1" }

abbrev url_2 : Node
url_2 = record blank { url = some "u2" }

abbrev with_url : State
with_url = record with_a { nodes = ("a", record node_a { url = some "u1" }) ∷ [] }

updated : update_node_details with_a url_1 "a" ≡ ok with_url
unfolding update_node_details merge_node get put
updated = refl
