-- ===== src/Tests/Downloads.antt =====
-- Concrete uses of the theorems on the data endpoint.
use dataspace_in_a_box.Base.{refl, none, some, [], ◌∷◌}
use dataspace_in_a_box.Config.{auth_required, find_configured_dataset, find_dataset_in}
use dataspace_in_a_box.Store.Table.{find}
use dataspace_in_a_box.Store.Rows.{TransferProcess, Store, empty_store}
use dataspace_in_a_box.Store.Agreements.{get_agreement, select_agreement}
use dataspace_in_a_box.Store.Transfers.{get_transfer, select_transfer}
use dataspace_in_a_box.Action.{
  pure, return_now, db, time_now, continue, require, or_500, or_reply, ◌>>=◌,
}
use dataspace_in_a_box.Envelope.{is_party, refuse_if_not_party}
use dataspace_in_a_box.Negotiation.Decision.{is_valid}
use dataspace_in_a_box.Transfer.State.{started}
use dataspace_in_a_box.Transfer.Sequence.{servable_as_provider}
use dataspace_in_a_box.Data.{whole, dataset_for, serve_content, handle_data}
use dataspace_in_a_box.Data.Access.{Served, handle_data-Served}
use dataspace_in_a_box.Tests.Fixtures.{acme, quiet, weather_agreement, world, from_bolt, bytes}

abbrev started_row : TransferProcess
started_row = record {
  provider_pid = "p1";
  consumer_pid = "c1";
  agreement_id = "p1";
  state = started;
  callback_address = "https://bolt.example";
  format = "HttpData-PULL";
  counterparty_id = "bolt";
  created_at = 1;
  updated_at = 1;
}

abbrev started_store : Store
started_store = record empty_store {
  agreements = weather_agreement ∷ [];
  transfer_processes = started_row ∷ [];
}

handle_data-Served_example : Served acme from_bolt (λ path. some bytes) quiet (world started_store)
unfolding handle_data get_transfer select_transfer get_agreement select_agreement db or_500 or_reply
    refuse_if_not_party require time_now pure return_now continue ◌>>=◌ dataset_for find is_party
    auth_required servable_as_provider find_configured_dataset find_dataset_in is_valid
    serve_content
handle_data-Served_example =
    handle_data-Served acme from_bolt none (λ path. some bytes) quiet (world started_store)
      (whole bytes) refl
