-- ===== src/Transfer/Safety/Provider.antt =====
-- The provider role of internal/dsp/transfer_handler.go keeps the guarantee.
use dataspace_in_a_box.Base.{String, ◌≡◌, Bool, true, Option, List, [], ◌∷◌, arith}
use dataspace_in_a_box.Config.{Config}
use dataspace_in_a_box.Store.Rows.{TransferProcess}
use dataspace_in_a_box.Guarantee.{Safe, safe_rules, Safe-bind, Safe-if, Safe-pure}
use dataspace_in_a_box.Store.Safety.{
  Safe-get_agreement, Safe-create_transfer, Safe-set_transfer_state,
}
use dataspace_in_a_box.Envelope.{Request}
use dataspace_in_a_box.Negotiation.Safety.Provider.{Safe-check_envelope}
use dataspace_in_a_box.Transfer.State.{
  TransferState, requested, started, completed, suspended, terminated, start_legal_from,
  provider_inbound_start_legal_from, completion_legal_from, suspension_legal_from,
  termination_legal_from, ◌⟶◌, moves,
}
use dataspace_in_a_box.Transfer.Provider.{
  TransferRequestBody, handle_transfer_request, Step, has_source_for, source_for_step,
  transfer_step_message, push_and_set, push_if_legal, push_transfer_step, drive_steps,
  run_drive_transfer,
}

-- The moves that the legality tests allow.
pub start_legal : (s : TransferState) → start_legal_from s ≡ true → s ⟶ started
unfolding start_legal_from
start_legal requested h = search moves
start_legal suspended h = search moves
start_legal _ h = absurd (ground arith)

pub provider_start_legal :
    (s : TransferState) → provider_inbound_start_legal_from s ≡ true → s ⟶ started
unfolding provider_inbound_start_legal_from
provider_start_legal suspended h = search moves
provider_start_legal _ h = absurd (ground arith)

pub completion_legal : (s : TransferState) → completion_legal_from s ≡ true → s ⟶ completed
unfolding completion_legal_from
completion_legal started h = search moves
completion_legal _ h = absurd (ground arith)

pub suspension_legal : (s : TransferState) → suspension_legal_from s ≡ true → s ⟶ suspended
unfolding suspension_legal_from
suspension_legal started h = search moves
suspension_legal _ h = absurd (ground arith)

pub termination_legal : (s : TransferState) → termination_legal_from s ≡ true → s ⟶ terminated
unfolding termination_legal_from
termination_legal requested h = search moves
termination_legal started h = search moves
termination_legal suspended h = search moves
termination_legal _ h = absurd (ground arith)

pub Safe-handle_transfer_request :
    (cfg : Config) (r : Request) (body : Option TransferRequestBody)
    → Safe (handle_transfer_request cfg r body)
unfolding handle_transfer_request
Safe-handle_transfer_request cfg r body =
    search (safe_rules, Safe-check_envelope, Safe-get_agreement, Safe-create_transfer) depth 40 fits
      9000

Safe-has_source_for : (cfg : Config) (id : String) → Safe (has_source_for cfg id)
unfolding has_source_for
Safe-has_source_for cfg id = search (safe_rules, Safe-get_agreement)

Safe-source_for_step :
    (cfg : Config) (t : TransferProcess) (to : TransferState) → Safe (source_for_step cfg t to)
unfolding source_for_step
Safe-source_for_step cfg t started = Safe-has_source_for cfg t.agreement_id
Safe-source_for_step cfg t _ = search safe_rules

Safe-push_and_set :
    (t : TransferProcess) (to : TransferState) (step : Step)
    → t.state ⟶ to
    → Safe (push_and_set t to step)
unfolding push_and_set
Safe-push_and_set t to step m = search (safe_rules, Safe-set_transfer_state) depth 20

-- A step is legal only where its message makes a move of the protocol.
Safe-push_if_legal :
    (cfg : Config) (t : TransferProcess) (to : TransferState) (source : Bool)
    → Safe (push_if_legal t to (transfer_step_message cfg t to source))
unfolding push_if_legal transfer_step_message
Safe-push_if_legal cfg t requested source = search safe_rules
Safe-push_if_legal cfg t started source = search (safe_rules, Safe-push_and_set, start_legal)
Safe-push_if_legal cfg t suspended source = search (safe_rules, Safe-push_and_set, suspension_legal)
Safe-push_if_legal cfg t completed source = search (safe_rules, Safe-push_and_set, completion_legal)
Safe-push_if_legal cfg t terminated source =
    search (safe_rules, Safe-push_and_set, termination_legal)

Safe-push_transfer_step :
    (cfg : Config) (t : TransferProcess) (to : TransferState) → Safe (push_transfer_step cfg t to)
unfolding push_transfer_step
Safe-push_transfer_step cfg t to =
    search (safe_rules, Safe-source_for_step, Safe-push_if_legal) depth 10

Safe-drive_steps :
    (cfg : Config) (t : TransferProcess) (states : List TransferState)
    → Safe (drive_steps cfg t states)
unfolding drive_steps
Safe-drive_steps cfg t [] = search safe_rules
Safe-drive_steps cfg t (state ∷ states) =
    Safe-bind _ _ (Safe-push_transfer_step cfg t state) (λ done.
      Safe-if done _ _ (λ e. Safe-drive_steps cfg (record t { state = state }) states)
        (λ e. Safe-pure tt))

pub Safe-run_drive_transfer : (cfg : Config) (t : TransferProcess) → Safe (run_drive_transfer cfg t)
unfolding run_drive_transfer
Safe-run_drive_transfer cfg t = search (safe_rules, Safe-get_agreement, Safe-drive_steps) depth 10
