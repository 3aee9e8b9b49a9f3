-- ===== src/Transfer/Provider.antt =====
-- The provider role of internal/dsp/transfer_handler.go: the request, and the driver that walks the
-- configured sequence.
use Prim.Native.String.{◌++◌}
use dataspace_in_a_box.Base.{
  String, Bool, true, false, not, ◌&&◌, Option, none, some, List, [], ◌∷◌, ◌==◌, if◌then◌else◌,
}
use dataspace_in_a_box.Config.{Config, auth_required}
use dataspace_in_a_box.Message.{
  Message, Reason, Reply, refusal, internal_error, transfer_error, not_json, consumer_pid_required,
  agreement_id_required, format_required, callback_required, unknown_agreement, not_the_provider,
  agreement_not_yours,
}
use dataspace_in_a_box.Store.Rows.{Agreement, TransferProcess}
use dataspace_in_a_box.Task.{drive_transfer}
use dataspace_in_a_box.Action.{
  Result, ok, err, Act, pure, time_now, new_uuid, validate_outgoing_callback, push_callback,
  write_reply, spawn, require, or_500, or_reply, ◌>>=◌, ◌>>◌,
}
use dataspace_in_a_box.Envelope.{Request, check_envelope}
use dataspace_in_a_box.Transfer.State.{
  TransferState, requested, started, completed, suspended, terminated, start_legal_from,
  completion_legal_from, suspension_legal_from, termination_legal_from,
}
use dataspace_in_a_box.Transfer.Sequence.{
  servable_as_provider, resolve_transfer_sequence, has_source_in,
}
use dataspace_in_a_box.Transfer.Build.{
  build_transfer_process_doc, build_transfer_start_message, build_transfer_start_message_with_data,
  build_transfer_suspension_message, build_transfer_completion_message,
  build_transfer_termination_message,
}
use dataspace_in_a_box.Store.Agreements.{get_agreement}
use dataspace_in_a_box.Store.Transfers.{create_transfer, set_transfer_state}

pub record TransferRequestBody : Type 0 where
  pub context : List String
  pub type : String
  pub consumer_pid : String
  pub agreement_id : String
  pub format : String
  pub callback_address : String

abbrev pub bad_transfer : Reason → Reply
bad_transfer reason = refusal 400 (transfer_error reason)

-- The participant that an agreement is with may cite it; an agreement that records none is anyone's.
unfoldable pub may_cite : Config → Request → Agreement → Bool
may_cite cfg r a =
    not (auth_required cfg && not (a.counterparty_id == "") && not (r.issuer == a.counterparty_id))

unfoldable pub handle_transfer_request :
    Config → Request → Option TransferRequestBody → Act (Unit {0})
handle_transfer_request cfg r body = do
  msg ← or_reply body (bad_transfer not_json)
  check_envelope transfer_error msg.context msg.type "TransferRequestMessage"
  require (not (msg.consumer_pid == "")) (bad_transfer consumer_pid_required)
  require (not (msg.agreement_id == "")) (bad_transfer agreement_id_required)
  require (not (msg.format == "")) (bad_transfer format_required)
  require (not (msg.callback_address == "")) (bad_transfer callback_required)
  found ← get_agreement msg.agreement_id
  row ← or_500 found
  a ← or_reply row (bad_transfer unknown_agreement)
  require (servable_as_provider a) (refusal 403 (transfer_error not_the_provider))
  require (may_cite cfg r a) (refusal 403 (transfer_error agreement_not_yours))
  made ← new_uuid
  provider_pid ← or_reply made internal_error
  now ← time_now
  let t : TransferProcess = record {
    provider_pid = provider_pid;
    consumer_pid = msg.consumer_pid;
    agreement_id = msg.agreement_id;
    state = requested;
    callback_address = msg.callback_address;
    format = msg.format;
    counterparty_id = r.issuer;
    created_at = now;
    updated_at = now;
  }
  created ← create_transfer t
  or_500 created
  write_reply (refusal 201 (build_transfer_process_doc t))
  spawn (drive_transfer t)

-- A message to push, and the test that the present state has to pass for it.
pub record Step : Type 0 where
  pub path : String
  pub message : Message
  pub legal_from : TransferState → Bool

unfoldable pub source_of : Config → Result (Option Agreement) → Bool
source_of cfg (ok (some a)) = servable_as_provider a && has_source_in cfg.datasets a.dataset_id
source_of cfg (ok none) = false
source_of cfg (err x) = false

unfoldable pub has_source_for : Config → String → Act Bool
has_source_for cfg agreement_id = do found ← get_agreement agreement_id; pure (source_of cfg found)

-- Only a start asks whether there is a file to serve.
unfoldable pub source_for_step : Config → TransferProcess → TransferState → Act Bool
source_for_step cfg t started = has_source_for cfg t.agreement_id
source_for_step cfg t _ = pure false

unfoldable pub transfer_step_message : Config → TransferProcess → TransferState → Bool → Option Step
transfer_step_message cfg t started source = some (record {
  path = "/transfers/" ++ t.consumer_pid ++ "/start";
  message =
      if source
      then build_transfer_start_message_with_data t cfg.public_url
      else build_transfer_start_message t;
  legal_from = start_legal_from;
})
transfer_step_message cfg t suspended source = some (record {
  path = "/transfers/" ++ t.consumer_pid ++ "/suspension";
  message = build_transfer_suspension_message t;
  legal_from = suspension_legal_from;
})
transfer_step_message cfg t completed source = some (record {
  path = "/transfers/" ++ t.consumer_pid ++ "/completion";
  message = build_transfer_completion_message t;
  legal_from = completion_legal_from;
})
transfer_step_message cfg t terminated source = some (record {
  path = "/transfers/" ++ t.consumer_pid ++ "/termination";
  message = build_transfer_termination_message t;
  legal_from = termination_legal_from;
})
transfer_step_message cfg t requested source = none

unfoldable pub succeeded : Result (Unit {0}) → Bool
succeeded (ok u) = true
succeeded (err x) = false

abbrev pub callback_url : TransferProcess → Step → String
callback_url t step = t.callback_address ++ step.path

-- The push comes first, and its outcome does not decide the write.
unfoldable pub push_and_set : TransferProcess → TransferState → Step → Act Bool
push_and_set t to step = do
  let url : String = callback_url t step
  allowed ← validate_outgoing_callback url
  if allowed
      then (do
        delivered ←
            push_callback
              (record { url = url; message = step.message; audience = t.counterparty_id })
        now ← time_now
        moved ← set_transfer_state t.provider_pid t.state to now
        pure (succeeded moved))
      else pure false

unfoldable pub push_if_legal : TransferProcess → TransferState → Option Step → Act Bool
push_if_legal t to none = pure false
push_if_legal t to (some step) =
    if step.legal_from t.state then push_and_set t to step else pure false

unfoldable pub push_transfer_step : Config → TransferProcess → TransferState → Act Bool
push_transfer_step cfg t to = do
  source ← source_for_step cfg t to
  push_if_legal t to (transfer_step_message cfg t to source)

-- The loop stops at the first step that is not done.
unfoldable pub drive_steps : Config → TransferProcess → List TransferState → Act (Unit {0})
drive_steps cfg t [] = pure tt
drive_steps cfg t (state ∷ states) = do
  done ← push_transfer_step cfg t state
  if done then drive_steps cfg (record t { state = state }) states else pure tt

unfoldable pub served_dataset : Result (Option Agreement) → String
served_dataset (ok (some a)) = if servable_as_provider a then a.dataset_id else ""
served_dataset (ok none) = ""
served_dataset (err x) = ""

unfoldable pub run_drive_transfer : Config → TransferProcess → Act (Unit {0})
run_drive_transfer cfg t = do
  found ← get_agreement t.agreement_id
  drive_steps cfg t (resolve_transfer_sequence cfg t.agreement_id (served_dataset found))
