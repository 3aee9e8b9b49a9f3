-- ===== src/Transfer/Build.antt =====
-- The messages of internal/dsp/transfer.go.
use Prim.Native.String.{◌++◌}
use dataspace_in_a_box.Base.{String, none, some}
use dataspace_in_a_box.Message.{
  Message, Body, transfer_document, transfer_start_message, transfer_suspension_message,
  transfer_completion_message, transfer_termination_message,
}
use dataspace_in_a_box.Store.Rows.{TransferProcess}
use dataspace_in_a_box.Negotiation.Build.{version_path}

unfoldable pub build_transfer_process_doc : TransferProcess → Body
build_transfer_process_doc t = transfer_document t.provider_pid t.consumer_pid t.state

unfoldable pub build_transfer_start_message : TransferProcess → Message
build_transfer_start_message t = transfer_start_message t.provider_pid t.consumer_pid none

unfoldable pub build_transfer_start_message_with_data : TransferProcess → String → Message
build_transfer_start_message_with_data t public_url =
    transfer_start_message t.provider_pid t.consumer_pid (
      some (record {
        endpoint_type = "https://w3id.org/idsa/v4.1/HTTP";
        endpoint = public_url ++ version_path ++ "/data/" ++ t.provider_pid;
      }))

unfoldable pub build_transfer_suspension_message : TransferProcess → Message
build_transfer_suspension_message t = transfer_suspension_message t.provider_pid t.consumer_pid

unfoldable pub build_transfer_completion_message : TransferProcess → Message
build_transfer_completion_message t = transfer_completion_message t.provider_pid t.consumer_pid

unfoldable pub build_transfer_termination_message : TransferProcess → Message
build_transfer_termination_message t = transfer_termination_message t.provider_pid t.consumer_pid
