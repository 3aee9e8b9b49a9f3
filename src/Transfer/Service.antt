-- ===== src/Transfer/Service.antt =====
-- The transfer endpoints together: which handler of internal/dsp serves which call. A call is a
-- route of internal/dsp/router.go or the initiate hook of the management API; its `Option` is the
-- request's body, `none` where that does not decode.
use dataspace_in_a_box.Base.{Option}
use dataspace_in_a_box.Action.{Act}
use dataspace_in_a_box.Envelope.{Request}
use dataspace_in_a_box.Initiate.{Connector}
use dataspace_in_a_box.Transfer.Provider.{TransferRequestBody, handle_transfer_request}
use dataspace_in_a_box.Transfer.Consumer.{TransferInitiateBody, handle_transfer_initiate}
use dataspace_in_a_box.Transfer.Endpoints.{
  TransferEnvelope, handle_get_transfer, handle_transfer_start, handle_transfer_completion,
  handle_transfer_suspension, handle_transfer_termination,
}

pub data TransferCall : Type 0 where
  transfer_request : Option TransferRequestBody → TransferCall
  transfer_initiate : Option TransferInitiateBody → TransferCall
  get_transfer_call : TransferCall
  transfer_start transfer_completion : Option TransferEnvelope → TransferCall
  transfer_suspension transfer_termination : Option TransferEnvelope → TransferCall

unfoldable pub serve_transfer : Connector → Request → TransferCall → Act (Unit {0})
serve_transfer h r (transfer_request body) = handle_transfer_request h.cfg r body
serve_transfer h r (transfer_initiate body) = handle_transfer_initiate h body
serve_transfer h r get_transfer_call = handle_get_transfer h.cfg r
serve_transfer h r (transfer_start body) = handle_transfer_start h.cfg r body
serve_transfer h r (transfer_completion body) = handle_transfer_completion h.cfg r body
serve_transfer h r (transfer_suspension body) = handle_transfer_suspension h.cfg r body
serve_transfer h r (transfer_termination body) = handle_transfer_termination h.cfg r body
