-- ===== src/Tests/Management.antt =====
-- Concrete uses of the theorems on the management API.
use dataspace_in_a_box.Base.{ℕ, String, ◌≡◌, List, [], ◌∷◌}
use dataspace_in_a_box.Action.{ret}
use dataspace_in_a_box.Store.Rows.{TransferProcess, Store, empty_store}
use dataspace_in_a_box.Transfer.State.{started}
use dataspace_in_a_box.Mgmt.{ImportBody, TransferView, handle_list_transfers}
use dataspace_in_a_box.Mgmt.Listing.{Listed, handle_list_transfers-Listed}
use dataspace_in_a_box.Tests.Fixtures.{quiet, quiet-Undisturbed, world}

abbrev body : ImportBody
body = record { agreement_id = "a9"; dataset_id = "weather"; counterparty_id = "bolt" }

abbrev transfer : String → ℕ → TransferProcess
transfer pid at = record {
  provider_pid = pid;
  consumer_pid = "c1";
  agreement_id = "a9";
  state = started;
  callback_address = "https://bolt.example";
  format = "HttpData-PULL";
  counterparty_id = "bolt";
  created_at = at;
  updated_at = at;
}

-- The second row is the older one.
abbrev two_transfers : Store
two_transfers = record empty_store { transfer_processes = transfer "p1" 9 ∷ transfer "p2" 3 ∷ [] }

handle_list_transfers-Listed_example :
    (listed : List TransferView) × ((handle_list_transfers
        (λ t. t ∷ [])
        quiet
        (world two_transfers)).0
      ≡ ret listed)
    × ((handle_list_transfers (λ t. t ∷ []) quiet (world two_transfers)).1.store ≡ two_transfers)
    × Listed (λ t. t ∷ []) two_transfers listed
handle_list_transfers-Listed_example =
    handle_list_transfers-Listed (λ t. t ∷ []) quiet (world two_transfers) quiet-Undisturbed
