-- ===== src/Service.antt =====
-- The goroutines of internal/dsp together: what each one that a handler may start runs.
pub mod Laws
use dataspace_in_a_box.Base.{some}
use dataspace_in_a_box.Action.{Act, pure, ◌>>=◌}
use dataspace_in_a_box.Initiate.{Connector}
use dataspace_in_a_box.Task.{
  Task, dispatch, push_and_store, delayed_terminate, start_negotiation, react_to_offer,
  react_to_agreement, drive_transfer, request_transfer, pull_transfer_data, drive_consumer_transfer,
}
use dataspace_in_a_box.Negotiation.Provider.{push_then_store, run_dispatch, run_delayed_terminate}
use dataspace_in_a_box.Negotiation.Consumer.{
  run_start_negotiation, run_react_to_offer, run_react_to_agreement,
}
use dataspace_in_a_box.Pull.Outcome.{Disk, Site}
use dataspace_in_a_box.Pull.Run.{run_pull_transfer_data}
use dataspace_in_a_box.Transfer.Provider.{run_drive_transfer}
use dataspace_in_a_box.Transfer.Consumer.{run_request_transfer, run_drive_consumer_transfer}

-- The site and the disk are what a pull of data meets; no other goroutine reads them.
unfoldable pub run_task : Connector → Site → Disk → Task → Act (Unit {0})
run_task h site d (dispatch n outcome) = run_dispatch h.cfg n outcome
run_task h site d (push_and_store n state path message) = push_then_store n state path message
run_task h site d (delayed_terminate n) = run_delayed_terminate n
run_task h site d (start_negotiation n) = run_start_negotiation h.cfg n
run_task h site d (react_to_offer n unenforceable) = run_react_to_offer h.cfg n unenforceable
run_task h site d (react_to_agreement n unenforceable wrong_target) =
    run_react_to_agreement h.cfg n unenforceable wrong_target
run_task h site d (drive_transfer t) = run_drive_transfer h.cfg t
run_task h site d (request_transfer t) = run_request_transfer h.cfg t
run_task h site d (pull_transfer_data t address) = do
  after ← run_pull_transfer_data h.cfg site t (some address) d
  pure tt
run_task h site d (drive_consumer_transfer t) = run_drive_consumer_transfer h.cfg t
