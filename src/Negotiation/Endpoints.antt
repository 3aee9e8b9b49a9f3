-- ===== src/Negotiation/Endpoints.antt =====
-- The endpoints of internal/dsp/negotiation_handler.go that serve both roles: the table in which
-- {id} is found decides, the provider's first.
use dataspace_in_a_box.Base.{Option, none, some}
use dataspace_in_a_box.Config.{Config}
use dataspace_in_a_box.Message.{refusal, negotiation_error, unknown_id}
use dataspace_in_a_box.Store.Rows.{Negotiation, ConsumerNegotiation}
use dataspace_in_a_box.Action.{Act, write_reply, or_500, or_reply, ◌>>=◌, ◌>>◌}
use dataspace_in_a_box.Envelope.{Request, refuse_if_not_party}
use dataspace_in_a_box.Negotiation.Build.{
  build_negotiation_state_document, build_consumer_negotiation_state_document,
}
use dataspace_in_a_box.Negotiation.Provider.{
  EventBody, EnvelopeBody, handle_provider_accepted_event, handle_provider_termination,
}
use dataspace_in_a_box.Negotiation.Consumer.{
  handle_consumer_finalized_event, handle_consumer_termination,
}
use dataspace_in_a_box.Store.Negotiations.{get, get_consumer}

module _ (r : Request) (provider : Negotiation → Act (Unit {0}))
    (consumer : ConsumerNegotiation → Act (Unit {0})) where
  -- The second look-up is made only if the first finds nothing.
  unfoldable pub try_consumer : Option Negotiation → Act (Unit {0})
  try_consumer (some n) = provider n
  try_consumer none = do
    found ← get_consumer r.id
    row ← or_500 found
    n ← or_reply row (refusal 404 (negotiation_error unknown_id))
    consumer n

  unfoldable pub by_role : Act (Unit {0})
  by_role = do found ← get r.id; row ← or_500 found; try_consumer row

unfoldable pub handle_event : Config → Request → Option EventBody → Act (Unit {0})
handle_event cfg r body =
    by_role r (handle_provider_accepted_event cfg r body)
      (handle_consumer_finalized_event cfg r body)

unfoldable pub handle_termination : Config → Request → Option EnvelopeBody → Act (Unit {0})
handle_termination cfg r body =
    by_role r (handle_provider_termination cfg r body) (handle_consumer_termination cfg r body)

unfoldable pub get_as_provider : Config → Request → Negotiation → Act (Unit {0})
get_as_provider cfg r n = do
  refuse_if_not_party negotiation_error cfg r n.counterparty_id
  write_reply (refusal 200 (build_negotiation_state_document n))

unfoldable pub get_as_consumer : Config → Request → ConsumerNegotiation → Act (Unit {0})
get_as_consumer cfg r n = do
  refuse_if_not_party negotiation_error cfg r n.counterparty_id
  write_reply (refusal 200 (build_consumer_negotiation_state_document n))

unfoldable pub handle_get_negotiation : Config → Request → Act (Unit {0})
handle_get_negotiation cfg r = by_role r (get_as_provider cfg r) (get_as_consumer cfg r)
