-- ===== src/Tests/Transfers.antt =====
-- Concrete uses of the theorems on the transfer endpoints and the goroutines.
use dataspace_in_a_box.Base.{◌≡◌, ◌≢◌, arith, refl, false≢true, eq_true, none, some, [], ◌∷◌}
use dataspace_in_a_box.Config.{auth_required}
use dataspace_in_a_box.Message.{refusal, transfer_error, wrong_state, agreement_not_yours}
use dataspace_in_a_box.Store.Table.{find}
use dataspace_in_a_box.Store.Rows.{Store, TransferProcess, empty_store}
use dataspace_in_a_box.Action.{halt}
use dataspace_in_a_box.Guarantee.{Safe}
use dataspace_in_a_box.Answering.{OneMore}
use dataspace_in_a_box.Envelope.{context_url, is_party}
use dataspace_in_a_box.Task.{push_and_store}
use dataspace_in_a_box.Message.{termination_message}
use dataspace_in_a_box.Negotiation.State as NegotiationStates
use dataspace_in_a_box.Transfer.State.{
  TransferState, start_legal_from, completion_legal_from, suspension_legal_from, started, requested,
  suspended, completed,
}
use dataspace_in_a_box.Transfer.Sequence.{servable_as_provider}
use dataspace_in_a_box.Transfer.Provider.{
  TransferRequestBody, drive_steps, bad_transfer, may_cite, handle_transfer_request,
}
use dataspace_in_a_box.Transfer.Endpoints.{TransferEnvelope, handle_transfer_start}
use dataspace_in_a_box.Transfer.Service.{transfer_request, transfer_start, serve_transfer}
use dataspace_in_a_box.Transfer.Safety.Service.{Safe-serve_transfer}
use dataspace_in_a_box.Transfer.Answers.{serve_transfer-answers_once}
use dataspace_in_a_box.Transfer.Driving.{
  Reached, is_legal_step, legal_prefix, last_state, drive_steps-Reached,
}
use dataspace_in_a_box.Transfer.Refusal.{
  refusal_for, Complete, WellTyped, handle_transfer_request-refuses, handle_transfer_start-refuses,
}
use dataspace_in_a_box.Service.{run_task}
use dataspace_in_a_box.Service.Laws.{run_task-Safe}
use dataspace_in_a_box.Tests.Fixtures.{
  download_site, no_download, acme, connector, quiet, quiet-Undisturbed, row, store_at, world,
  from_bolt, from_stranger,
}

abbrev transfer_row : TransferState → TransferProcess
transfer_row state = record {
  provider_pid = "p1";
  consumer_pid = "c1";
  agreement_id = "p1";
  state = state;
  callback_address = "https://bolt.example";
  format = "HttpData-PULL";
  counterparty_id = "bolt";
  created_at = 1;
  updated_at = 1;
}

abbrev transfer_store_at : TransferState → Store
transfer_store_at state = record empty_store { transfer_processes = transfer_row state ∷ [] }

abbrev transfer_body : TransferRequestBody
transfer_body = record {
  context = context_url ∷ [];
  type = "TransferRequestMessage";
  consumer_pid = "c1";
  agreement_id = "p1";
  format = "HttpData-PULL";
  callback_address = "https://eve.example";
}

abbrev start_body : TransferEnvelope
start_body = record {
  context = context_url ∷ [];
  type = "TransferStartMessage";
  data_address = none;
}

transfer_body-Complete : Complete transfer_body
transfer_body-Complete = record {
  context = refl;
  type = refl;
  consumer_pid = refl;
  agreement_id = refl;
  format = refl;
  callback_address = refl;
}

start_body-WellTyped : WellTyped start_body
start_body-WellTyped = record { context = refl; type = refl }

requested_not_suspended : requested ≢ suspended
requested_not_suspended h = ground arith

Safe-serve_transfer_example :
    Safe (serve_transfer connector from_bolt (transfer_request (some transfer_body)))
Safe-serve_transfer_example =
    Safe-serve_transfer connector from_bolt (transfer_request (some transfer_body))

serve_transfer-answers_once_example :
    OneMore []
      (serve_transfer connector from_bolt
        (transfer_start (some start_body))
        quiet
        (world (transfer_store_at requested))).1.replies
serve_transfer-answers_once_example =
    serve_transfer-answers_once connector from_bolt (transfer_start (some start_body)) quiet
      (world (transfer_store_at requested))

handle_transfer_request-refuses_example :
    handle_transfer_request acme from_stranger
      (some transfer_body)
      quiet
      (world (store_at NegotiationStates.finalized))
    ≡ (
      halt,
      record (world (store_at NegotiationStates.finalized)) {
        tick = 1;
        replies = refusal 403 (transfer_error agreement_not_yours) ∷ [];
      },
    )
unfolding find refusal_for servable_as_provider may_cite auth_required
handle_transfer_request-refuses_example =
    handle_transfer_request-refuses acme from_stranger transfer_body transfer_body-Complete quiet
      (world (store_at NegotiationStates.finalized)) refl
      (λ g. false≢true (eq_true "eve" "bolt" (g.1 refl (λ h. false≢true (eq_true "bolt" "" h)))))

handle_transfer_start-refuses_example :
    handle_transfer_start acme from_bolt
      (some start_body)
      quiet
      (world (transfer_store_at requested))
    ≡ (
      halt,
      record (world (transfer_store_at requested)) {
        tick = 2;
        replies = bad_transfer wrong_state ∷ [];
      },
    )
unfolding find is_party auth_required
handle_transfer_start-refuses_example =
    handle_transfer_start-refuses acme from_bolt start_body start_body-WellTyped quiet
      (world (transfer_store_at requested)) refl refl (transfer_row requested) refl refl refl
      requested_not_suspended

run_task-Safe_example : Safe (
    run_task connector download_site no_download (
      push_and_store
        (row NegotiationStates.verified)
        NegotiationStates.finalized
        "/events"
        (termination_message "p1" "c1")))
run_task-Safe_example =
    run_task-Safe connector download_site no_download
      (push_and_store (row NegotiationStates.verified) NegotiationStates.finalized "/events"
        (termination_message "p1" "c1"))
      NegotiationStates.finalize

drive_steps-Reached_example : Reached "p1" tt completed 2 (world (transfer_store_at requested)) (
    drive_steps acme
      (transfer_row requested)
      (started ∷ completed ∷ suspended ∷ [])
      quiet
      (world (transfer_store_at requested)))
unfolding find legal_prefix last_state is_legal_step start_legal_from completion_legal_from
    suspension_legal_from
drive_steps-Reached_example =
    drive_steps-Reached quiet quiet-Undisturbed (λ k url. refl) acme
      (started ∷ completed ∷ suspended ∷ []) (transfer_row requested)
      (world (transfer_store_at requested))
      (record { row = transfer_row requested; found = refl; in_state = refl })
