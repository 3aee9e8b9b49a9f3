-- ===== src/Transfer/Safety/Service.antt =====
-- Every transfer endpoint keeps the guarantee, and what that means for a single row.
use dataspace_in_a_box.Base.{String, ◌≡◌, sym, some}
use dataspace_in_a_box.Store.Table.{find}
use dataspace_in_a_box.Store.Rows.{TransferProcess, transfer_key}
use dataspace_in_a_box.Store.Follow.{follow_transfer}
use dataspace_in_a_box.Action.{Env, World}
use dataspace_in_a_box.Guarantee.{Safe, Rely}
use dataspace_in_a_box.Envelope.{Request}
use dataspace_in_a_box.Initiate.{Connector}
use dataspace_in_a_box.Transfer.State.{IsTerminal, IsTerminal-⟶*}
use dataspace_in_a_box.Transfer.Service.{
  TransferCall, transfer_request, transfer_initiate, get_transfer_call, transfer_start,
  transfer_completion, transfer_suspension, transfer_termination, serve_transfer,
}
use dataspace_in_a_box.Transfer.Safety.Provider.{Safe-handle_transfer_request}
use dataspace_in_a_box.Transfer.Safety.Consumer.{Safe-handle_transfer_initiate}
use dataspace_in_a_box.Transfer.Safety.Endpoints.{
  Safe-handle_get_transfer, Safe-handle_transfer_start, Safe-handle_transfer_completion,
  Safe-handle_transfer_suspension, Safe-handle_transfer_termination,
}

-- Every transfer endpoint is safe: whatever the other goroutines do between its effects, so long as
-- they too keep the guarantee, and whichever of its calls fail, it deletes no row, keeps the parties
-- and terms of each exchange and each agreement, and moves each state only along the protocol.
pub Safe-serve_transfer :
    (h : Connector) (r : Request) (call : TransferCall) → Safe (serve_transfer h r call)
unfolding serve_transfer
Safe-serve_transfer h r (transfer_request body) = Safe-handle_transfer_request h.cfg r body
Safe-serve_transfer h r (transfer_initiate body) = Safe-handle_transfer_initiate h body
Safe-serve_transfer h r get_transfer_call = Safe-handle_get_transfer h.cfg r
Safe-serve_transfer h r (transfer_start body) = Safe-handle_transfer_start h.cfg r body
Safe-serve_transfer h r (transfer_completion body) = Safe-handle_transfer_completion h.cfg r body
Safe-serve_transfer h r (transfer_suspension body) = Safe-handle_transfer_suspension h.cfg r body
Safe-serve_transfer h r (transfer_termination body) = Safe-handle_transfer_termination h.cfg r body

-- A provider-role transfer that is COMPLETED or TERMINATED before a call to a transfer endpoint is
-- there after it, in the same state: for every body, every failing call and any interference that
-- keeps the guarantee.
pub serve_transfer-keeps_terminal :
    (h : Connector) (r : Request) (call : TransferCall) (e : Env) (w : World)
    → Rely e
    → (pid : String) (t : TransferProcess)
    → find transfer_key pid w.store.transfer_processes ≡ some t
    → IsTerminal t.state
    → (u : TransferProcess) × (find transfer_key pid
          (serve_transfer h r call e w).1.store.transfer_processes
        ≡ some u)
      × (u.state ≡ t.state)
serve_transfer-keeps_terminal h r call e w rely pid t found terminal =
    let (u, after, path) =
      follow_transfer w.store _ pid t ((Safe-serve_transfer h r call).at e rely w).store found in
    (u, after, sym (IsTerminal-⟶* path.path terminal))
