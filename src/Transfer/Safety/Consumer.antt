-- ===== src/Transfer/Safety/Consumer.antt =====
-- The consumer role of internal/dsp/transfer_consumer_handler.go keeps the guarantee.
use dataspace_in_a_box.Base.{Option, List, [], ◌∷◌}
use dataspace_in_a_box.Config.{Config}
use dataspace_in_a_box.Store.Rows.{ConsumerTransfer}
use dataspace_in_a_box.Guarantee.{Safe, safe_rules, Safe-bind, Safe-if, Safe-pure}
use dataspace_in_a_box.Store.Safety.{
  Safe-get_agreement, Safe-create_consumer_transfer, Safe-set_consumer_transfer_state,
  Safe-set_consumer_transfer_provider_pid,
}
use dataspace_in_a_box.Initiate.{Connector}
use dataspace_in_a_box.Negotiation.Safety.Consumer.{initiate_rules, Safe-or_failed}
use dataspace_in_a_box.Transfer.State.{
  TransferState, requested, started, completed, suspended, terminated, ◌⟶◌,
}
use dataspace_in_a_box.Transfer.Safety.Provider.{
  completion_legal, suspension_legal, termination_legal,
}
use dataspace_in_a_box.Transfer.Provider.{Step}
use dataspace_in_a_box.Transfer.Consumer.{
  TransferInitiateBody, handle_transfer_initiate, maybe_drive_consumer_transfer,
  run_request_transfer, consumer_transfer_step_message, push_and_set_consumer,
  push_consumer_if_legal, push_consumer_step, drive_consumer_steps, run_drive_consumer_transfer,
}

pub Safe-handle_transfer_initiate :
    (h : Connector) (body : Option TransferInitiateBody) → Safe (handle_transfer_initiate h body)
unfolding handle_transfer_initiate
Safe-handle_transfer_initiate h body =
    search (safe_rules, initiate_rules, Safe-get_agreement, Safe-create_consumer_transfer) depth 40

pub Safe-maybe_drive_consumer_transfer :
    (cfg : Config) (t : ConsumerTransfer) (reached : TransferState)
    → Safe (maybe_drive_consumer_transfer cfg t reached)
unfolding maybe_drive_consumer_transfer
Safe-maybe_drive_consumer_transfer cfg t reached = search safe_rules

pub Safe-run_request_transfer :
    (cfg : Config) (t : ConsumerTransfer) → Safe (run_request_transfer cfg t)
unfolding run_request_transfer
Safe-run_request_transfer cfg t =
    search
      (
        safe_rules, Safe-or_failed, Safe-set_consumer_transfer_provider_pid,
        Safe-maybe_drive_consumer_transfer,
      )
      depth 15

Safe-push_and_set_consumer :
    (t : ConsumerTransfer) (to : TransferState) (step : Step)
    → t.state ⟶ to
    → Safe (push_and_set_consumer t to step)
unfolding push_and_set_consumer
Safe-push_and_set_consumer t to step m =
    search (safe_rules, Safe-set_consumer_transfer_state) depth 20

Safe-push_consumer_step :
    (t : ConsumerTransfer) (to : TransferState) → Safe (push_consumer_step t to)
unfolding push_consumer_step push_consumer_if_legal consumer_transfer_step_message
Safe-push_consumer_step t requested = search safe_rules
Safe-push_consumer_step t started = search safe_rules
Safe-push_consumer_step t suspended =
    search (safe_rules, Safe-push_and_set_consumer, suspension_legal)
Safe-push_consumer_step t completed =
    search (safe_rules, Safe-push_and_set_consumer, completion_legal)
Safe-push_consumer_step t terminated =
    search (safe_rules, Safe-push_and_set_consumer, termination_legal)

Safe-drive_consumer_steps :
    (t : ConsumerTransfer) (states : List TransferState) → Safe (drive_consumer_steps t states)
unfolding drive_consumer_steps
Safe-drive_consumer_steps t [] = search safe_rules
Safe-drive_consumer_steps t (state ∷ states) =
    Safe-bind _ _ (Safe-push_consumer_step t state) (λ done.
      Safe-if done _ _ (λ e. Safe-drive_consumer_steps (record t { state = state }) states)
        (λ e. Safe-pure tt))

pub Safe-run_drive_consumer_transfer :
    (cfg : Config) (t : ConsumerTransfer) → Safe (run_drive_consumer_transfer cfg t)
unfolding run_drive_consumer_transfer
Safe-run_drive_consumer_transfer cfg t = Safe-drive_consumer_steps t _
