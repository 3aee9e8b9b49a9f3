-- ===== src/Negotiation/Provider.antt =====
-- The provider role of internal/dsp/negotiation_handler.go: the handlers, the routing decision's
-- pushes, and the goroutines behind them.
use Prim.Native.String.{◌++◌}
use dataspace_in_a_box.Base.{
  String, Bool, false, not, ◌&&◌, ◌||◌, Option, none, some, List, [], ◌∷◌, ◌==◌, if◌then◌else◌,
}
use dataspace_in_a_box.Config.{Config, Dataset, find_configured_dataset}
use dataspace_in_a_box.Message.{
  Message, Reason, Reply, refusal, internal_error, reply_ok, negotiation_error, not_json,
  consumer_pid_required, offer_required, callback_required, wrong_event_type, wrong_state,
  changed_concurrently, already_rerequested, unknown_id,
}
use dataspace_in_a_box.Store.Rows.{Negotiation, Origin}
use dataspace_in_a_box.Task.{Task, dispatch, push_and_store, delayed_terminate}
use dataspace_in_a_box.Action.{
  state_changed, Result, ok, err, Act, pure, return_now, time_now, new_uuid,
  validate_outgoing_callback, push_callback, write_reply, spawn, require, or_500, or_reply,
  or_return, ◌>>=◌, ◌>>◌,
}
use dataspace_in_a_box.Envelope.{Request, check_envelope, refuse_if_not_party}
use dataspace_in_a_box.Negotiation.State.{
  NegotiationState, requested, offered, accepted, agreed, verified, finalized, terminated,
  same_state,
}
use dataspace_in_a_box.Negotiation.Decision.{
  NegotiationOutcome, decide_initial_request, decide_accept, decide_re_request_matches,
}
use dataspace_in_a_box.Negotiation.Build.{
  build_offer_message, build_agreement_message, build_finalized_event_message,
  build_termination_message, build_negotiation_state_document,
}
use dataspace_in_a_box.Store.Negotiations.{get, create, set_state, set_rerequested}
use dataspace_in_a_box.Store.Agreements.{create_agreement_if_negotiation_agreed}

-- The decoded bodies; `none` in a handler's argument is a body that does not decode.
pub record RequestMessage : Type 0 where
  pub context : List String
  pub type : String
  pub consumer_pid : String
  pub offer_id : String
  pub offer_target : String
  pub callback_address : String

pub record EventBody : Type 0 where
  pub context : List String
  pub type : String
  pub event_type : String

pub record EnvelopeBody : Type 0 where
  pub context : List String
  pub type : String

abbrev pub bad_request : Reason → Reply
bad_request reason = refusal 400 (negotiation_error reason)

-- A conditional update that did not happen: a lost race is a 400, anything else a 500.
unfoldable pub or_state_update_error : Result (Unit {0}) → Act (Unit {0})
or_state_update_error (ok u) = pure u
or_state_update_error (err state_changed) = do
  write_reply (bad_request changed_concurrently)
  return_now
or_state_update_error (err x) = do write_reply internal_error; return_now

unfoldable pub handle_contract_request : Config → Request → Option RequestMessage → Act (Unit {0})
handle_contract_request cfg r body = do
  msg ← or_reply body (bad_request not_json)
  check_envelope negotiation_error msg.context msg.type "ContractRequestMessage"
  require (not (msg.consumer_pid == "")) (bad_request consumer_pid_required)
  require (not (msg.offer_id == "" || msg.offer_target == "")) (bad_request offer_required)
  require (not (msg.callback_address == "")) (bad_request callback_required)
  made ← new_uuid
  provider_pid ← or_reply made internal_error
  now ← time_now
  let n : Negotiation = record {
    provider_pid = provider_pid;
    consumer_pid = msg.consumer_pid;
    state = requested;
    dataset_id = msg.offer_target;
    offer_id = msg.offer_id;
    callback_address = msg.callback_address;
    rerequested = false;
    counterparty_id = r.issuer;
    created_at = now;
    updated_at = now;
  }
  created ← create n
  or_500 created
  write_reply (refusal 201 (build_negotiation_state_document n))
  spawn (dispatch n (decide_initial_request cfg n.dataset_id n.offer_id now))

-- `lookup`: the provider-role row of the path, for a caller that is party to it.
unfoldable pub lookup : Config → Request → Act Negotiation
lookup cfg r = do
  found ← get r.id
  row ← or_500 found
  n ← or_reply row (refusal 404 (negotiation_error unknown_id))
  refuse_if_not_party negotiation_error cfg r n.counterparty_id
  pure n

unfoldable pub or_re_request_error : Result (Unit {0}) → Act (Unit {0})
or_re_request_error (ok u) = pure u
or_re_request_error (err state_changed) = do
  write_reply (bad_request already_rerequested)
  return_now
or_re_request_error (err x) = do write_reply internal_error; return_now

unfoldable pub handle_re_request : Config → Request → Option RequestMessage → Act (Unit {0})
handle_re_request cfg r body = do
  n ← lookup cfg r
  msg ← or_reply body (bad_request not_json)
  check_envelope negotiation_error msg.context msg.type "ContractRequestMessage"
  require (same_state n.state offered) (bad_request wrong_state)
  marked ← set_rerequested n.provider_pid
  or_re_request_error marked
  write_reply reply_ok
  if decide_re_request_matches n.offer_id msg.offer_id
      then pure tt
      else spawn (push_and_store n terminated "/termination" (build_termination_message n))

unfoldable pub handle_provider_accepted_event :
    Config → Request → Option EventBody → Negotiation → Act (Unit {0})
handle_provider_accepted_event cfg r body n = do
  refuse_if_not_party negotiation_error cfg r n.counterparty_id
  msg ← or_reply body (bad_request not_json)
  check_envelope negotiation_error msg.context msg.type "ContractNegotiationEventMessage"
  require (msg.event_type == "ACCEPTED") (bad_request wrong_event_type)
  require (same_state n.state offered) (bad_request wrong_state)
  now ← time_now
  moved ← set_state n.provider_pid n.state accepted now
  or_state_update_error moved
  write_reply reply_ok
  spawn (dispatch (record n { state = accepted }) (decide_accept cfg n.dataset_id now))

unfoldable pub terminates_on_verify : Option Dataset → Bool
terminates_on_verify none = false
terminates_on_verify (some ds) = ds.terminate_on_verify

-- What follows a verification.
unfoldable pub after_verification : Config → Negotiation → Task
after_verification cfg n =
    if terminates_on_verify (find_configured_dataset cfg n.dataset_id)
    then push_and_store n terminated "/termination" (build_termination_message n)
    else push_and_store n finalized "/events" (build_finalized_event_message n)

unfoldable pub handle_verification : Config → Request → Option EnvelopeBody → Act (Unit {0})
handle_verification cfg r body = do
  n ← lookup cfg r
  msg ← or_reply body (bad_request not_json)
  check_envelope negotiation_error msg.context msg.type "ContractAgreementVerificationMessage"
  require (same_state n.state agreed) (bad_request wrong_state)
  now ← time_now
  moved ← set_state n.provider_pid n.state verified now
  or_state_update_error moved
  write_reply reply_ok
  spawn (after_verification cfg (record n { state = verified }))

unfoldable pub handle_provider_termination :
    Config → Request → Option EnvelopeBody → Negotiation → Act (Unit {0})
handle_provider_termination cfg r body n = do
  refuse_if_not_party negotiation_error cfg r n.counterparty_id
  msg ← or_reply body (bad_request not_json)
  check_envelope negotiation_error msg.context msg.type "ContractNegotiationTerminationMessage"
  require (not (same_state n.state finalized || same_state n.state terminated))
      (bad_request wrong_state)
  now ← time_now
  moved ← set_state n.provider_pid n.state terminated now
  or_state_update_error moved
  write_reply reply_ok

abbrev pub negotiation_url : Negotiation → String → String
negotiation_url n path = n.callback_address ++ "/negotiations/" ++ n.consumer_pid ++ path

-- `pushAndStore`: the push comes first, and its outcome does not decide the write.
unfoldable pub push_then_store : Negotiation → NegotiationState → String → Message → Act (Unit {0})
push_then_store n state path message = do
  let url : String = negotiation_url n path
  allowed ← validate_outgoing_callback url
  delivered ←
      if allowed
      then push_callback (record { url = url; message = message; audience = n.counterparty_id })
      else pure false
  now ← time_now
  moved ← set_state n.provider_pid n.state state now
  pure tt

-- The agreement is recorded only where the state that landed proves that it was issued.
unfoldable pub record_issued_agreement : Negotiation → Act (Unit {0})
record_issued_agreement n = do
  now ← time_now
  recorded ←
      create_agreement_if_negotiation_agreed n.provider_pid (agreed ∷ verified ∷ finalized ∷ [])
        (record {
          agreement_id = n.provider_pid;
          dataset_id = n.dataset_id;
          consumer_pid = n.consumer_pid;
          origin = Origin.negotiated;
          counterparty_id = n.counterparty_id;
          created_at = now;
        })
  pure tt

unfoldable pub run_dispatch : Config → Negotiation → NegotiationOutcome → Act (Unit {0})
run_dispatch cfg n outcome =
    if outcome.push_offer && outcome.push_termination
    then (do
      push_then_store n offered "/offers" (build_offer_message cfg n)
      spawn (delayed_terminate n))
    else if outcome.push_offer
    then push_then_store n offered "/offers" (build_offer_message cfg n)
    else if outcome.push_agreement
    then (do
      now ← time_now
      push_then_store n agreed "/agreement" (build_agreement_message cfg n now)
      record_issued_agreement n)
    else if outcome.push_termination
    then push_then_store n terminated "/termination" (build_termination_message n)
    else pure tt

unfoldable pub or_gone : Option Negotiation → Act Negotiation
or_gone none = return_now
or_gone (some n) = pure n

unfoldable pub when : Bool → Act (Unit {0})
when test = if test then pure tt else return_now

-- `delayedTerminate`, after its pause: the row is read again.
unfoldable pub run_delayed_terminate : Negotiation → Act (Unit {0})
run_delayed_terminate n = do
  found ← get n.provider_pid
  row ← or_return found
  current ← or_gone row
  when (same_state current.state offered)
  push_then_store current terminated "/termination" (build_termination_message current)
