-- ===== src/Transfer/Endpoints.antt =====
-- The endpoints of internal/dsp/transfer_handler.go that serve both roles: the table in which {id}
-- is found decides, the consumer's first.
use dataspace_in_a_box.Base.{ℕ, String, Bool, Option, none, some, List}
use dataspace_in_a_box.Config.{Config}
use dataspace_in_a_box.Message.{
  DataAddress, Body, refusal, internal_error, transfer_error, transfer_document, not_json,
  wrong_state, changed_concurrently, unknown_id,
}
use dataspace_in_a_box.Store.Rows.{TransferProcess, ConsumerTransfer}
use dataspace_in_a_box.Task.{pull_transfer_data}
use dataspace_in_a_box.Action.{
  state_changed, Result, ok, err, Act, pure, return_now, time_now, write_reply, spawn, require,
  or_500, or_reply, ◌>>=◌, ◌>>◌,
}
use dataspace_in_a_box.Envelope.{Request, check_envelope, refuse_if_not_party}
use dataspace_in_a_box.Transfer.State.{
  TransferState, started, completed, suspended, terminated, start_legal_from,
  provider_inbound_start_legal_from, completion_legal_from, suspension_legal_from,
  termination_legal_from,
}
use dataspace_in_a_box.Transfer.Provider.{bad_transfer}
use dataspace_in_a_box.Transfer.Consumer.{maybe_drive_consumer_transfer}
use dataspace_in_a_box.Store.Transfers.{
  get_transfer, set_transfer_state, get_consumer_transfer, set_consumer_transfer_state,
}

pub record TransferEnvelope : Type 0 where
  pub context : List String
  pub type : String
  pub data_address : Option DataAddress

-- A row with the table that it comes from: `resolvedTransfer`.
pub data ResolvedTransfer : Type 0 where
  as_provider : TransferProcess → ResolvedTransfer
  as_consumer : ConsumerTransfer → ResolvedTransfer

unfoldable pub state_of : ResolvedTransfer → TransferState
state_of (as_provider t) = t.state
state_of (as_consumer t) = t.state

unfoldable pub document_of : ResolvedTransfer → TransferState → Body
document_of (as_provider t) state = transfer_document t.provider_pid t.consumer_pid state
document_of (as_consumer t) state = transfer_document t.provider_pid t.consumer_pid state

unfoldable pub lookup_as_provider : Config → Request → Act ResolvedTransfer
lookup_as_provider cfg r = do
  found ← get_transfer r.id
  row ← or_500 found
  t ← or_reply row (refusal 404 (transfer_error unknown_id))
  refuse_if_not_party transfer_error cfg r t.counterparty_id
  pure (as_provider t)

unfoldable pub lookup_by_role : Config → Request → Option ConsumerTransfer → Act ResolvedTransfer
lookup_by_role cfg r (some t) = do
  refuse_if_not_party transfer_error cfg r t.counterparty_id
  pure (as_consumer t)
lookup_by_role cfg r none = lookup_as_provider cfg r

unfoldable pub lookup_transfer : Config → Request → Act ResolvedTransfer
lookup_transfer cfg r = do
  found ← get_consumer_transfer r.id
  row ← or_500 found
  lookup_by_role cfg r row

unfoldable pub handle_get_transfer : Config → Request → Act (Unit {0})
handle_get_transfer cfg r = do
  t ← lookup_transfer cfg r
  write_reply (refusal 200 (document_of t (state_of t)))

-- From REQUESTED only the provider may start.
unfoldable pub inbound_start_legal_for : ResolvedTransfer → TransferState → Bool
inbound_start_legal_for (as_consumer t) = start_legal_from
inbound_start_legal_for (as_provider t) = provider_inbound_start_legal_from

unfoldable pub set_resolved_state : ResolvedTransfer → TransferState → ℕ → Act (Result (Unit {0}))
set_resolved_state (as_consumer t) to at = set_consumer_transfer_state t.consumer_pid t.state to at
set_resolved_state (as_provider t) to at = set_transfer_state t.provider_pid t.state to at

unfoldable pub or_transfer_update_error : Result (Unit {0}) → Act (Unit {0})
or_transfer_update_error (ok u) = pure u
or_transfer_update_error (err state_changed) = do
  write_reply (bad_transfer changed_concurrently)
  return_now
or_transfer_update_error (err x) = do write_reply internal_error; return_now

-- The row that the pull is given; what it does not name is zero.
unfoldable pub pulled_row : ConsumerTransfer → TransferState → ConsumerTransfer
pulled_row t to = record t {
  provider_base_url = "";
  format = "";
  state = to;
  received_bytes = 0;
  data_path = "";
  data_completed_at = none;
  data_error = "";
  created_at = 0;
  updated_at = 0;
}

unfoldable pub driven_row : ConsumerTransfer → TransferState → ConsumerTransfer
driven_row t to = record t {
  state = to;
  expected_bytes = 0;
  received_bytes = 0;
  data_path = "";
  data_completed_at = none;
  data_error = "";
  created_at = 0;
  updated_at = 0;
}

unfoldable pub pull_if_started :
    ConsumerTransfer → TransferState → Option DataAddress → Act (Unit {0})
pull_if_started t started (some address) = spawn (pull_transfer_data (pulled_row t started) address)
pull_if_started t _ _ = pure tt

unfoldable pub after_transition :
    Config → ResolvedTransfer → TransferState → Option DataAddress → Act (Unit {0})
after_transition cfg (as_provider t) to address = pure tt
after_transition cfg (as_consumer t) to address = do
  pull_if_started t to address
  maybe_drive_consumer_transfer cfg (driven_row t to) to

unfoldable pub apply_transition :
    Config
    → Request
    → Option TransferEnvelope
    → String
    → (ResolvedTransfer → TransferState → Bool)
    → TransferState
    → Act (Unit {0})
apply_transition cfg r body want_type legal_from to = do
  t ← lookup_transfer cfg r
  msg ← or_reply body (bad_transfer not_json)
  check_envelope transfer_error msg.context msg.type want_type
  require (legal_from t (state_of t)) (bad_transfer wrong_state)
  now ← time_now
  moved ← set_resolved_state t to now
  or_transfer_update_error moved
  write_reply (refusal 200 (document_of t to))
  after_transition cfg t to msg.data_address

unfoldable pub handle_transfer_start : Config → Request → Option TransferEnvelope → Act (Unit {0})
handle_transfer_start cfg r body =
    apply_transition cfg r body "TransferStartMessage" inbound_start_legal_for started

unfoldable pub handle_transfer_completion :
    Config → Request → Option TransferEnvelope → Act (Unit {0})
handle_transfer_completion cfg r body =
    apply_transition cfg r body "TransferCompletionMessage" (λ t. completion_legal_from) completed

unfoldable pub handle_transfer_suspension :
    Config → Request → Option TransferEnvelope → Act (Unit {0})
handle_transfer_suspension cfg r body =
    apply_transition cfg r body "TransferSuspensionMessage" (λ t. suspension_legal_from) suspended

unfoldable pub handle_transfer_termination :
    Config → Request → Option TransferEnvelope → Act (Unit {0})
handle_transfer_termination cfg r body =
    apply_transition cfg r body "TransferTerminationMessage" (λ t. termination_legal_from)
      terminated
