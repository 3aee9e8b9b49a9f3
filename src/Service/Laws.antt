-- ===== src/Service/Laws.antt =====
-- Every goroutine keeps the guarantee.
use dataspace_in_a_box.Base.{some}
use dataspace_in_a_box.Guarantee.{Safe, Admissible, Safe-bind, Safe-pure}
use dataspace_in_a_box.Pull.Outcome.{Disk, Site}
use dataspace_in_a_box.Pull.Safety.{Safe-run_pull_transfer_data}
use dataspace_in_a_box.Initiate.{Connector}
use dataspace_in_a_box.Task.{
  Task, dispatch, push_and_store, delayed_terminate, start_negotiation, react_to_offer,
  react_to_agreement, drive_transfer, request_transfer, pull_transfer_data, drive_consumer_transfer,
}
use dataspace_in_a_box.Negotiation.Safety.Provider.{
  Safe-push_then_store, Safe-run_dispatch, Safe-run_delayed_terminate,
}
use dataspace_in_a_box.Negotiation.Safety.Consumer.{
  Safe-run_start_negotiation, Safe-run_react_to_offer, Safe-run_react_to_agreement,
}
use dataspace_in_a_box.Transfer.Safety.Provider.{Safe-run_drive_transfer}
use dataspace_in_a_box.Transfer.Safety.Consumer.{
  Safe-run_request_transfer, Safe-run_drive_consumer_transfer,
}
use dataspace_in_a_box.Service.{run_task}

-- Every goroutine, started with an admissible argument, is safe: whatever the other goroutines do
-- between its effects, so long as they too keep the guarantee, whichever of its calls fail, and
-- whatever the disk and the counterparty answer to a pull of data, it deletes no row, keeps terms and
-- agreements, moves each state only along the protocol, and starts only goroutines with an admissible
-- argument.
pub run_task-Safe :
    (h : Connector) (site : Site) (d : Disk) (task : Task)
    → Admissible task
    → Safe (run_task h site d task)
unfolding run_task
run_task-Safe h site d (dispatch n outcome) a = Safe-run_dispatch h.cfg n outcome a
run_task-Safe h site d (push_and_store n state path message) a =
    Safe-push_then_store n state path message a
run_task-Safe h site d (delayed_terminate n) a = Safe-run_delayed_terminate n
run_task-Safe h site d (start_negotiation n) a = Safe-run_start_negotiation h.cfg n a
run_task-Safe h site d (react_to_offer n unenforceable) a =
    Safe-run_react_to_offer h.cfg n unenforceable a
run_task-Safe h site d (react_to_agreement n unenforceable wrong_target) a =
    Safe-run_react_to_agreement h.cfg n unenforceable wrong_target a
run_task-Safe h site d (drive_transfer t) a = Safe-run_drive_transfer h.cfg t
run_task-Safe h site d (request_transfer t) a = Safe-run_request_transfer h.cfg t
run_task-Safe h site d (pull_transfer_data t address) a =
    Safe-bind _ _ (Safe-run_pull_transfer_data h.cfg site t (some address) d)
      (λ after. Safe-pure tt)
run_task-Safe h site d (drive_consumer_transfer t) a = Safe-run_drive_consumer_transfer h.cfg t
