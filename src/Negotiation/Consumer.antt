-- ===== src/Negotiation/Consumer.antt =====
-- The consumer role: internal/dsp/negotiation_consumer_handler.go, and the pushes of
-- internal/dsp/negotiation_client.go.
use Prim.Native.String.{◌++◌}
use dataspace_in_a_box.Base.{String, Bool, not, ◌||◌, Option, none, some, List, ◌==◌, if◌then◌else◌}
use dataspace_in_a_box.Config.{Config, OnOffer, OnAgreement, OnIdle}
use dataspace_in_a_box.Message.{
  Message, Permission, refusal, internal_error, reply_ok, negotiation_error, not_json,
  fields_required, wrong_event_type, wrong_state, unknown_id,
}
use dataspace_in_a_box.Store.Rows.{ConsumerNegotiation, Origin}
use dataspace_in_a_box.Task.{start_negotiation, react_to_offer, react_to_agreement}
use dataspace_in_a_box.Action.{
  Result, ok, err, Act, pure, return_now, time_now, new_uuid, push_callback, send_opening,
  write_reply, spawn, require, or_500, or_reply, or_return, ◌>>=◌, ◌>>◌,
}
use dataspace_in_a_box.Envelope.{Request, check_envelope, refuse_if_not_party}
use dataspace_in_a_box.Initiate.{
  Connector, refuse_expired_roster, check_requested_address, resolve_base_url,
}
use dataspace_in_a_box.Negotiation.State.{
  requested, offered, accepted, agreed, verified, finalized, terminated, same_state,
}
use dataspace_in_a_box.Negotiation.Decision.{
  has_unenforceable_constraint, decide_offer_reaction, decide_agreement_reaction, resolve_policy,
  offer_legal_from, agreement_legal_from, finalized_event_legal_from,
}
use dataspace_in_a_box.Negotiation.Build.{
  build_counter_request_message, build_accepted_event_message, build_verification_message,
  build_consumer_termination_message,
}
use dataspace_in_a_box.Negotiation.Provider.{
  EventBody, EnvelopeBody, bad_request, or_state_update_error,
}
use dataspace_in_a_box.Store.Negotiations.{
  get_consumer, create_consumer, set_consumer_state, set_consumer_provider_pid,
}
use dataspace_in_a_box.Store.Agreements.{create_agreement}

pub record InitiateBody : Type 0 where
  pub provider_id : String
  pub offer_id : String
  pub dataset_id : String
  pub connector_address : String

pub record OfferBody : Type 0 where
  pub context : List String
  pub type : String
  pub permission : List Permission

pub record AgreementBody : Type 0 where
  pub context : List String
  pub type : String
  pub agreement_id : String
  pub target : String
  pub permission : List Permission

-- The pushes to the provider; each answers whether it was acknowledged.
unfoldable pub send : ConsumerNegotiation → String → Message → Act Bool
send n path message = push_callback (record {
  url = n.provider_base_url ++ "/negotiations/" ++ n.provider_pid ++ path;
  message = message;
  audience = n.counterparty_id;
})

unfoldable pub send_counter_request : ConsumerNegotiation → Act Bool
send_counter_request n = send n "/request" (build_counter_request_message n)

unfoldable pub send_accepted_event : ConsumerNegotiation → Act Bool
send_accepted_event n = send n "/events" (build_accepted_event_message n)

unfoldable pub send_verification : ConsumerNegotiation → Act Bool
send_verification n = send n "/agreement/verification" (build_verification_message n)

unfoldable pub send_consumer_termination : ConsumerNegotiation → Act Bool
send_consumer_termination n = send n "/termination" (build_consumer_termination_message n)

unfoldable pub handle_initiate : Connector → Option InitiateBody → Act (Unit {0})
handle_initiate h body = do
  refuse_expired_roster negotiation_error h
  msg ← or_reply body (bad_request not_json)
  require
      (not (
        msg.provider_id == ""
        || msg.offer_id == ""
        || msg.dataset_id == ""
        || msg.connector_address == ""))
      (bad_request fields_required)
  check_requested_address negotiation_error msg.connector_address
  url ← resolve_base_url negotiation_error h msg.provider_id msg.connector_address
  made ← new_uuid
  consumer_pid ← or_reply made internal_error
  now ← time_now
  let n : ConsumerNegotiation = record {
    consumer_pid = consumer_pid;
    provider_pid = "";
    provider_base_url = url;
    state = requested;
    dataset_id = msg.dataset_id;
    offer_id = msg.offer_id;
    counterparty_id = msg.provider_id;
    created_at = now;
    updated_at = now;
  }
  created ← create_consumer n
  or_500 created
  write_reply reply_ok
  spawn (start_negotiation n)

-- A termination that is pushed and then recorded from the state that the goroutine knew.
unfoldable pub terminate : ConsumerNegotiation → Act (Unit {0})
terminate n = do
  delivered ← send_consumer_termination n
  now ← time_now
  moved ← set_consumer_state n.consumer_pid n.state terminated now
  pure tt

unfoldable pub apply_on_idle : OnIdle → ConsumerNegotiation → Act (Unit {0})
apply_on_idle OnIdle.abandon n = terminate n
apply_on_idle _ n = pure tt

unfoldable pub or_failed : Option String → Act String
or_failed none = return_now
or_failed (some pid) = pure pid

unfoldable pub run_start_negotiation : Config → ConsumerNegotiation → Act (Unit {0})
run_start_negotiation cfg n = do
  answer ← send_opening (n.provider_base_url ++ "/negotiations/request")
  provider_pid ← or_failed answer
  now ← time_now
  noted ← set_consumer_provider_pid n.consumer_pid provider_pid now
  or_return noted
  apply_on_idle (resolve_policy cfg n.dataset_id).on_idle (record n { provider_pid = provider_pid })

-- The rows that `handleOffers` and `handleAgreement` look up themselves.
unfoldable pub lookup_consumer : Config → Request → Act ConsumerNegotiation
lookup_consumer cfg r = do
  found ← get_consumer r.id
  row ← or_500 found
  n ← or_reply row (refusal 404 (negotiation_error unknown_id))
  refuse_if_not_party negotiation_error cfg r n.counterparty_id
  pure n

unfoldable pub handle_offers : Config → Request → Option OfferBody → Act (Unit {0})
handle_offers cfg r body = do
  n ← lookup_consumer cfg r
  msg ← or_reply body (bad_request not_json)
  check_envelope negotiation_error msg.context msg.type "ContractOfferMessage"
  require (offer_legal_from n.state) (bad_request wrong_state)
  now ← time_now
  moved ← set_consumer_state n.consumer_pid n.state offered now
  or_state_update_error moved
  write_reply reply_ok
  spawn
      (react_to_offer (record n { state = offered }) (has_unenforceable_constraint msg.permission))

unfoldable pub adopt_pid :
    ConsumerNegotiation → Result (Option ConsumerNegotiation) → ConsumerNegotiation
adopt_pid n (ok (some current)) = record n { provider_pid = current.provider_pid }
adopt_pid n (ok none) = n
adopt_pid n (err x) = n

unfoldable pub resolve_provider_pid : ConsumerNegotiation → Act ConsumerNegotiation
resolve_provider_pid n =
    if n.provider_pid == ""
    then (do current ← get_consumer n.consumer_pid; pure (adopt_pid n current))
    else pure n

unfoldable pub apply_on_offer : OnOffer → ConsumerNegotiation → Act (Unit {0})
apply_on_offer OnOffer.accept n = do
  delivered ← send_accepted_event n
  now ← time_now
  moved ← set_consumer_state n.consumer_pid n.state accepted now
  pure tt
apply_on_offer OnOffer.reject n = terminate n
apply_on_offer OnOffer.counter n = do delivered ← send_counter_request n; pure tt
apply_on_offer OnOffer.passive n = pure tt
apply_on_offer OnOffer.unset n = pure tt

unfoldable pub run_react_to_offer : Config → ConsumerNegotiation → Bool → Act (Unit {0})
run_react_to_offer cfg n unenforceable = do
  current ← resolve_provider_pid n
  apply_on_offer
      (decide_offer_reaction (resolve_policy cfg current.dataset_id).on_offer unenforceable) current

unfoldable pub handle_agreement : Config → Request → Option AgreementBody → Act (Unit {0})
handle_agreement cfg r body = do
  n ← lookup_consumer cfg r
  msg ← or_reply body (bad_request not_json)
  check_envelope negotiation_error msg.context msg.type "ContractAgreementMessage"
  require (agreement_legal_from n.state) (bad_request wrong_state)
  now ← time_now
  recorded ← create_agreement (record {
    agreement_id = msg.agreement_id;
    dataset_id = msg.target;
    consumer_pid = n.consumer_pid;
    origin = Origin.agreed;
    counterparty_id = n.counterparty_id;
    created_at = now;
  })
  or_500 recorded
  later ← time_now
  moved ← set_consumer_state n.consumer_pid n.state agreed later
  or_state_update_error moved
  write_reply reply_ok
  spawn (
      react_to_agreement (record n { state = agreed }) (has_unenforceable_constraint msg.permission)
        (not (msg.target == n.dataset_id)))

unfoldable pub when : Bool → Act (Unit {0})
when test = if test then pure tt else return_now

unfoldable pub apply_on_agreement : OnAgreement → ConsumerNegotiation → Act (Unit {0})
apply_on_agreement OnAgreement.verify n = do
  acknowledged ← send_verification n
  when acknowledged
  now ← time_now
  moved ← set_consumer_state n.consumer_pid n.state verified now
  pure tt
apply_on_agreement OnAgreement.reject n = terminate n
apply_on_agreement OnAgreement.unset n = pure tt

unfoldable pub run_react_to_agreement : Config → ConsumerNegotiation → Bool → Bool → Act (Unit {0})
run_react_to_agreement cfg n unenforceable wrong_target = do
  current ← resolve_provider_pid n
  apply_on_agreement
      (decide_agreement_reaction (resolve_policy cfg current.dataset_id).on_agreement unenforceable
        wrong_target)
      current

unfoldable pub handle_consumer_finalized_event :
    Config → Request → Option EventBody → ConsumerNegotiation → Act (Unit {0})
handle_consumer_finalized_event cfg r body n = do
  refuse_if_not_party negotiation_error cfg r n.counterparty_id
  msg ← or_reply body (bad_request not_json)
  check_envelope negotiation_error msg.context msg.type "ContractNegotiationEventMessage"
  require (msg.event_type == "FINALIZED") (bad_request wrong_event_type)
  require (finalized_event_legal_from n.state) (bad_request wrong_state)
  now ← time_now
  moved ← set_consumer_state n.consumer_pid n.state finalized now
  or_state_update_error moved
  write_reply reply_ok

unfoldable pub handle_consumer_termination :
    Config → Request → Option EnvelopeBody → ConsumerNegotiation → Act (Unit {0})
handle_consumer_termination cfg r body n = do
  refuse_if_not_party negotiation_error cfg r n.counterparty_id
  msg ← or_reply body (bad_request not_json)
  check_envelope negotiation_error msg.context msg.type "ContractNegotiationTerminationMessage"
  require (not (same_state n.state finalized || same_state n.state terminated))
      (bad_request wrong_state)
  now ← time_now
  moved ← set_consumer_state n.consumer_pid n.state terminated now
  or_state_update_error moved
  write_reply reply_ok
