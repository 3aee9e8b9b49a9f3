-- ===== src/Task.antt =====
-- The goroutines that a handler starts with `go`: each constructor is one `go f(...)` of
-- internal/dsp, with the arguments that it is given.
use dataspace_in_a_box.Base.{String, Bool}
use dataspace_in_a_box.Message.{Message, DataAddress}
use dataspace_in_a_box.Negotiation.State.{NegotiationState}
use dataspace_in_a_box.Negotiation.Decision.{NegotiationOutcome}
use dataspace_in_a_box.Store.Rows.{
  Negotiation, ConsumerNegotiation, TransferProcess, ConsumerTransfer,
}

pub data Task : Type 0 where
  dispatch : Negotiation → NegotiationOutcome → Task
  push_and_store : Negotiation → NegotiationState → String → Message → Task
  delayed_terminate : Negotiation → Task
  start_negotiation : ConsumerNegotiation → Task
  react_to_offer : ConsumerNegotiation → Bool → Task
  react_to_agreement : ConsumerNegotiation → Bool → Bool → Task
  drive_transfer : TransferProcess → Task
  request_transfer : ConsumerTransfer → Task
  pull_transfer_data : ConsumerTransfer → DataAddress → Task
  drive_consumer_transfer : ConsumerTransfer → Task
