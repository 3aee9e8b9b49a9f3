-- ===== src/Negotiation/Build.antt =====
-- The messages and documents that internal/dsp/negotiation.go builds from a stored row.
use Prim.Native.String.{◌++◌}
use dataspace_in_a_box.Base.{ℕ, String, Option, none, some, ◌==◌, if◌then◌else◌}
use dataspace_in_a_box.Config.{Dataset, Config, find_configured_dataset}
use dataspace_in_a_box.Message.{
  NegotiationOffer, Message, Body, build_permission, offer_message, agreement_message,
  finalized_event, accepted_event, verification_message, termination_message,
  counter_request_message, negotiation_document,
}
use dataspace_in_a_box.Store.Rows.{Negotiation, ConsumerNegotiation}
use dataspace_in_a_box.Negotiation.Decision.{offer_id_suffix}

abbrev pub version_path : String
version_path = "/2025-1"

unfoldable pub new_negotiation_offer : String → String → Option ℕ → NegotiationOffer
unfolding build_permission
new_negotiation_offer offer_id dataset_id validity_until = record {
  id = offer_id;
  target = dataset_id;
  permission = build_permission validity_until;
}

-- The zero dataset has no validity.
validity_of : Option Dataset → Option ℕ
validity_of none = none
validity_of (some ds) = ds.validity_until

unfoldable pub build_offer_message : Config → Negotiation → Message
unfolding new_negotiation_offer validity_of
build_offer_message cfg n = offer_message n.provider_pid n.consumer_pid (
    new_negotiation_offer (n.dataset_id ++ offer_id_suffix) n.dataset_id
      (validity_of (find_configured_dataset cfg n.dataset_id)))

unfoldable pub build_agreement_message : Config → Negotiation → ℕ → Message
unfolding build_permission validity_of
build_agreement_message cfg n now =
    agreement_message n.provider_pid n.consumer_pid
      (record {
        id = n.provider_pid;
        target = n.dataset_id;
        permission = build_permission (validity_of (find_configured_dataset cfg n.dataset_id));
        assigner = cfg.participant_id;
        assignee = if n.counterparty_id == "" then n.consumer_pid else n.counterparty_id;
        timestamp = now;
      })
      (cfg.public_url ++ version_path)

unfoldable pub build_finalized_event_message : Negotiation → Message
build_finalized_event_message n = finalized_event n.provider_pid n.consumer_pid

unfoldable pub build_termination_message : Negotiation → Message
build_termination_message n = termination_message n.provider_pid n.consumer_pid

unfoldable pub build_negotiation_state_document : Negotiation → Body
build_negotiation_state_document n = negotiation_document n.provider_pid n.consumer_pid n.state

unfoldable pub build_counter_request_message : ConsumerNegotiation → Message
unfolding new_negotiation_offer
build_counter_request_message n =
    counter_request_message n.provider_pid n.consumer_pid
      (new_negotiation_offer n.offer_id n.dataset_id none)

unfoldable pub build_accepted_event_message : ConsumerNegotiation → Message
build_accepted_event_message n = accepted_event n.provider_pid n.consumer_pid

unfoldable pub build_verification_message : ConsumerNegotiation → Message
build_verification_message n = verification_message n.provider_pid n.consumer_pid

unfoldable pub build_consumer_termination_message : ConsumerNegotiation → Message
build_consumer_termination_message n = termination_message n.provider_pid n.consumer_pid

unfoldable pub build_consumer_negotiation_state_document : ConsumerNegotiation → Body
build_consumer_negotiation_state_document n =
    negotiation_document n.provider_pid n.consumer_pid n.state
