-- ===== src/Negotiation/Safety/Endpoints.antt =====
-- The endpoints that serve both roles keep the guarantee.
use dataspace_in_a_box.Base.{Option, none, some}
use dataspace_in_a_box.Config.{Config}
use dataspace_in_a_box.Store.Rows.{Negotiation, ConsumerNegotiation}
use dataspace_in_a_box.Action.{Act}
use dataspace_in_a_box.Guarantee.{Safe, safe_rules}
use dataspace_in_a_box.Store.Safety.{Safe-get, Safe-get_consumer}
use dataspace_in_a_box.Envelope.{Request}
use dataspace_in_a_box.Negotiation.Provider.{EventBody, EnvelopeBody}
use dataspace_in_a_box.Negotiation.Endpoints.{
  try_consumer, by_role, get_as_provider, get_as_consumer, handle_event, handle_termination,
  handle_get_negotiation,
}
use dataspace_in_a_box.Negotiation.Safety.Provider.{
  Safe-refuse_if_not_party, Safe-handle_provider_accepted_event, Safe-handle_provider_termination,
}
use dataspace_in_a_box.Negotiation.Safety.Consumer.{
  Safe-handle_consumer_finalized_event, Safe-handle_consumer_termination,
}

module _ (r : Request) (provider : Negotiation → Act (Unit {0}))
    (consumer : ConsumerNegotiation → Act (Unit {0}))
    (Safe-provider : (n : Negotiation) → Safe (provider n))
    (Safe-consumer : (n : ConsumerNegotiation) → Safe (consumer n)) where
  Safe-try_consumer : (o : Option Negotiation) → Safe (try_consumer r provider consumer o)
  unfolding try_consumer
  Safe-try_consumer (some n) = Safe-provider n
  Safe-try_consumer none = search (safe_rules, Safe-get_consumer, Safe-consumer) depth 10

  Safe-by_role : Safe (by_role r provider consumer)
  unfolding by_role
  Safe-by_role = search (safe_rules, Safe-get, Safe-try_consumer) depth 10

pub Safe-handle_event :
    (cfg : Config) (r : Request) (body : Option EventBody) → Safe (handle_event cfg r body)
unfolding handle_event
Safe-handle_event cfg r body =
    Safe-by_role r _ _ (Safe-handle_provider_accepted_event cfg r body)
      (Safe-handle_consumer_finalized_event cfg r body)

pub Safe-handle_termination :
    (cfg : Config) (r : Request) (body : Option EnvelopeBody) → Safe (handle_termination cfg r body)
unfolding handle_termination
Safe-handle_termination cfg r body =
    Safe-by_role r _ _ (Safe-handle_provider_termination cfg r body)
      (Safe-handle_consumer_termination cfg r body)

Safe-get_as_provider :
    (cfg : Config) (r : Request) (n : Negotiation) → Safe (get_as_provider cfg r n)
unfolding get_as_provider
Safe-get_as_provider cfg r n = search (safe_rules, Safe-refuse_if_not_party) depth 10

Safe-get_as_consumer :
    (cfg : Config) (r : Request) (n : ConsumerNegotiation) → Safe (get_as_consumer cfg r n)
unfolding get_as_consumer
Safe-get_as_consumer cfg r n = search (safe_rules, Safe-refuse_if_not_party) depth 10

pub Safe-handle_get_negotiation : (cfg : Config) (r : Request) → Safe (handle_get_negotiation cfg r)
unfolding handle_get_negotiation
Safe-handle_get_negotiation cfg r =
    Safe-by_role r _ _ (Safe-get_as_provider cfg r) (Safe-get_as_consumer cfg r)
