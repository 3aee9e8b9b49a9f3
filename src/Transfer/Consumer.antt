-- ===== src/Transfer/Consumer.antt =====
-- The consumer role of internal/dsp/transfer_consumer_handler.go, but for the pull of the data.
use Prim.Native.String.{◌++◌}
use dataspace_in_a_box.Base.{
  String, Bool, true, false, not, ◌||◌, Option, none, some, List, [], ◌∷◌, ◌==◌, if◌then◌else◌,
}
use dataspace_in_a_box.Config.{Config}
use dataspace_in_a_box.Message.{
  internal_error, reply_ok, transfer_error, not_json, fields_required, unknown_agreement,
}
use dataspace_in_a_box.Store.Rows.{TransferProcess, ConsumerTransfer}
use dataspace_in_a_box.Task.{request_transfer, drive_consumer_transfer}
use dataspace_in_a_box.Action.{
  Act, pure, time_now, new_uuid, validate_outgoing_callback, push_callback, send_opening,
  write_reply, spawn, require, or_500, or_reply, or_return, ◌>>=◌, ◌>>◌,
}
use dataspace_in_a_box.Initiate.{
  Connector, refuse_expired_roster, check_requested_address, resolve_base_url,
}
use dataspace_in_a_box.Negotiation.Consumer.{or_failed}
use dataspace_in_a_box.Transfer.State.{
  TransferState, requested, started, completed, suspended, terminated, same_state,
  completion_legal_from, suspension_legal_from, termination_legal_from,
}
use dataspace_in_a_box.Transfer.Sequence.{resolve_consumer_transfer_policy}
use dataspace_in_a_box.Transfer.Build.{
  build_transfer_suspension_message, build_transfer_completion_message,
  build_transfer_termination_message,
}
use dataspace_in_a_box.Transfer.Provider.{Step, bad_transfer, succeeded}
use dataspace_in_a_box.Store.Agreements.{get_agreement}
use dataspace_in_a_box.Store.Transfers.{
  create_consumer_transfer, set_consumer_transfer_state, set_consumer_transfer_provider_pid,
}

pub record TransferInitiateBody : Type 0 where
  pub provider_id : String
  pub agreement_id : String
  pub format : String
  pub connector_address : String

unfoldable pub handle_transfer_initiate : Connector → Option TransferInitiateBody → Act (Unit {0})
handle_transfer_initiate h body = do
  refuse_expired_roster transfer_error h
  msg ← or_reply body (bad_transfer not_json)
  require
      (not (
        msg.provider_id == ""
        || msg.agreement_id == ""
        || msg.format == ""
        || msg.connector_address == ""))
      (bad_transfer fields_required)
  check_requested_address transfer_error msg.connector_address
  found ← get_agreement msg.agreement_id
  row ← or_500 found
  a ← or_reply row (bad_transfer unknown_agreement)
  url ← resolve_base_url transfer_error h msg.provider_id msg.connector_address
  made ← new_uuid
  consumer_pid ← or_reply made internal_error
  now ← time_now
  let t : ConsumerTransfer = record {
    consumer_pid = consumer_pid;
    provider_pid = "";
    provider_base_url = url;
    agreement_id = msg.agreement_id;
    format = msg.format;
    state = requested;
    counterparty_id = msg.provider_id;
    expected_bytes = 0;
    received_bytes = 0;
    data_path = "";
    data_completed_at = none;
    data_error = "";
    created_at = now;
    updated_at = now;
  }
  created ← create_consumer_transfer t
  or_500 created
  write_reply reply_ok
  spawn (request_transfer t)

is_empty : List TransferState → Bool
is_empty [] = true
is_empty (state ∷ states) = false

unfoldable pub maybe_drive_consumer_transfer :
    Config → ConsumerTransfer → TransferState → Act (Unit {0})
unfolding is_empty
maybe_drive_consumer_transfer cfg t reached =
    let (after, sequence) = resolve_consumer_transfer_policy cfg t.agreement_id in
    if is_empty sequence || not (same_state reached after)
    then pure tt
    else spawn (drive_consumer_transfer (record t { state = reached }))

unfoldable pub run_request_transfer : Config → ConsumerTransfer → Act (Unit {0})
run_request_transfer cfg t = do
  answer ← send_opening (t.provider_base_url ++ "/transfers/request")
  provider_pid ← or_failed answer
  now ← time_now
  noted ← set_consumer_transfer_provider_pid t.consumer_pid provider_pid now
  or_return noted
  maybe_drive_consumer_transfer cfg (record t { provider_pid = provider_pid }) requested

-- The builders take a row of the other table, of which they read the two pids.
as_process : ConsumerTransfer → TransferProcess
as_process t = record {
  provider_pid = t.provider_pid;
  consumer_pid = t.consumer_pid;
  agreement_id = "";
  state = requested;
  callback_address = "";
  format = "";
  counterparty_id = "";
  created_at = 0;
  updated_at = 0;
}

-- A consumer never starts a transfer.
unfoldable pub consumer_transfer_step_message : ConsumerTransfer → TransferState → Option Step
unfolding as_process
consumer_transfer_step_message t suspended = some (record {
  path = "/transfers/" ++ t.provider_pid ++ "/suspension";
  message = build_transfer_suspension_message (as_process t);
  legal_from = suspension_legal_from;
})
consumer_transfer_step_message t completed = some (record {
  path = "/transfers/" ++ t.provider_pid ++ "/completion";
  message = build_transfer_completion_message (as_process t);
  legal_from = completion_legal_from;
})
consumer_transfer_step_message t terminated = some (record {
  path = "/transfers/" ++ t.provider_pid ++ "/termination";
  message = build_transfer_termination_message (as_process t);
  legal_from = termination_legal_from;
})
consumer_transfer_step_message t requested = none
consumer_transfer_step_message t started = none

unfoldable pub push_and_set_consumer : ConsumerTransfer → TransferState → Step → Act Bool
push_and_set_consumer t to step = do
  let url : String = t.provider_base_url ++ step.path
  allowed ← validate_outgoing_callback url
  if allowed
      then (do
        delivered ←
            push_callback
              (record { url = url; message = step.message; audience = t.counterparty_id })
        now ← time_now
        moved ← set_consumer_transfer_state t.consumer_pid t.state to now
        pure (succeeded moved))
      else pure false

unfoldable pub push_consumer_if_legal : ConsumerTransfer → TransferState → Option Step → Act Bool
push_consumer_if_legal t to none = pure false
push_consumer_if_legal t to (some step) =
    if step.legal_from t.state
    then if t.provider_pid == "" then pure false else push_and_set_consumer t to step
    else pure false

unfoldable pub push_consumer_step : ConsumerTransfer → TransferState → Act Bool
push_consumer_step t to = push_consumer_if_legal t to (consumer_transfer_step_message t to)

unfoldable pub drive_consumer_steps : ConsumerTransfer → List TransferState → Act (Unit {0})
drive_consumer_steps t [] = pure tt
drive_consumer_steps t (state ∷ states) = do
  done ← push_consumer_step t state
  if done then drive_consumer_steps (record t { state = state }) states else pure tt

unfoldable pub run_drive_consumer_transfer : Config → ConsumerTransfer → Act (Unit {0})
run_drive_consumer_transfer cfg t =
    drive_consumer_steps t (resolve_consumer_transfer_policy cfg t.agreement_id).1
