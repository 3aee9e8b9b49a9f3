-- ===== src/Negotiation/Answers.antt =====
-- Every negotiation endpoint answers its request exactly once.
use dataspace_in_a_box.Base.{ℕ, String, Bool, true, false, Option, none, some, List}
use dataspace_in_a_box.Config.{Config}
use dataspace_in_a_box.Message.{Reason, Body}
use dataspace_in_a_box.Store.Rows.{Negotiation, ConsumerNegotiation, Agreement}
use dataspace_in_a_box.Action.{Result, ok, err, not_found, state_changed, failed, Env, World, Act}
use dataspace_in_a_box.Answering.{Guards, Answers, OneMore, answering_rules}
use dataspace_in_a_box.Envelope.{Request, check_envelope, refuse_if_not_party}
use dataspace_in_a_box.Initiate.{
  Connector, refuse_expired_roster, check_requested_address, check_dialed, resolve_base_url,
}
use dataspace_in_a_box.Negotiation.State.{NegotiationState}
use dataspace_in_a_box.Store.Negotiations.{
  get, create, explain_no_update, conclude, set_state, set_rerequested, get_consumer,
  create_consumer, explain_no_consumer_update, set_consumer_state,
}
use dataspace_in_a_box.Store.Agreements.{create_agreement}
use dataspace_in_a_box.Negotiation.Provider.{
  EventBody, EnvelopeBody, or_state_update_error, or_re_request_error, lookup,
  handle_contract_request, handle_re_request, handle_provider_accepted_event, handle_verification,
  handle_provider_termination,
}
use dataspace_in_a_box.Negotiation.Consumer.{
  handle_initiate, lookup_consumer, handle_offers, handle_agreement,
  handle_consumer_finalized_event, handle_consumer_termination,
}
use dataspace_in_a_box.Negotiation.Endpoints.{
  try_consumer, by_role, get_as_provider, get_as_consumer, handle_event, handle_termination,
  handle_get_negotiation,
}
use dataspace_in_a_box.Negotiation.Service.{
  Call, contract_request, re_request, event, verification, termination, get_negotiation, initiate,
  offers, agreement, serve,
}

-- The store's operations do not answer.
pub Guards-conclude :
    (changed : Result Bool) (explain : Act (Result (Unit {0})))
    → Guards explain
    → Guards (conclude changed explain)
unfolding conclude
Guards-conclude (err x) explain h = search answering_rules
Guards-conclude (ok true) explain h = search answering_rules
Guards-conclude (ok false) explain h = h

Guards-get : (pid : String) → Guards (get pid)
unfolding get
Guards-get pid = search answering_rules

Guards-create : (n : Negotiation) → Guards (create n)
unfolding create
Guards-create n = search answering_rules

Guards-explain_no_update : (pid : String) → Guards (explain_no_update pid)
unfolding explain_no_update
Guards-explain_no_update pid = search (answering_rules, Guards-get)

Guards-set_state :
    (pid : String) (from to : NegotiationState) (at : ℕ) → Guards (set_state pid from to at)
unfolding set_state
Guards-set_state pid from to at =
    search (answering_rules, Guards-conclude, Guards-explain_no_update)

Guards-set_rerequested : (pid : String) → Guards (set_rerequested pid)
unfolding set_rerequested
Guards-set_rerequested pid = search (answering_rules, Guards-conclude, Guards-explain_no_update)

Guards-get_consumer : (pid : String) → Guards (get_consumer pid)
unfolding get_consumer
Guards-get_consumer pid = search answering_rules

Guards-create_consumer : (n : ConsumerNegotiation) → Guards (create_consumer n)
unfolding create_consumer
Guards-create_consumer n = search answering_rules

Guards-explain_no_consumer_update : (pid : String) → Guards (explain_no_consumer_update pid)
unfolding explain_no_consumer_update
Guards-explain_no_consumer_update pid = search (answering_rules, Guards-get_consumer)

Guards-set_consumer_state :
    (pid : String) (from to : NegotiationState) (at : ℕ)
    → Guards (set_consumer_state pid from to at)
unfolding set_consumer_state
Guards-set_consumer_state pid from to at =
    search (answering_rules, Guards-conclude, Guards-explain_no_consumer_update)

Guards-create_agreement : (a : Agreement) → Guards (create_agreement a)
unfolding create_agreement
Guards-create_agreement a = search answering_rules

-- Nor do the checks, where they pass.
pub Guards-check_envelope :
    (e : Reason → Body) (context : List String) (got want : String)
    → Guards (check_envelope e context got want)
unfolding check_envelope
Guards-check_envelope e context got want = search answering_rules

pub Guards-refuse_if_not_party :
    (e : Reason → Body) (cfg : Config) (r : Request) (stored : String)
    → Guards (refuse_if_not_party e cfg r stored)
unfolding refuse_if_not_party
Guards-refuse_if_not_party e cfg r stored = search answering_rules

Guards-or_state_update_error : (r : Result (Unit {0})) → Guards (or_state_update_error r)
unfolding or_state_update_error
Guards-or_state_update_error (ok u) = search answering_rules
Guards-or_state_update_error (err state_changed) = search answering_rules
Guards-or_state_update_error (err not_found) = search answering_rules
Guards-or_state_update_error (err failed) = search answering_rules

Guards-or_re_request_error : (r : Result (Unit {0})) → Guards (or_re_request_error r)
unfolding or_re_request_error
Guards-or_re_request_error (ok u) = search answering_rules
Guards-or_re_request_error (err state_changed) = search answering_rules
Guards-or_re_request_error (err not_found) = search answering_rules
Guards-or_re_request_error (err failed) = search answering_rules

Guards-lookup : (cfg : Config) (r : Request) → Guards (lookup cfg r)
unfolding lookup
Guards-lookup cfg r = search (answering_rules, Guards-get, Guards-refuse_if_not_party) depth 15

Guards-lookup_consumer : (cfg : Config) (r : Request) → Guards (lookup_consumer cfg r)
unfolding lookup_consumer
Guards-lookup_consumer cfg r =
    search (answering_rules, Guards-get_consumer, Guards-refuse_if_not_party) depth 15

pub Guards-refuse_expired_roster :
    (e : Reason → Body) (h : Connector) → Guards (refuse_expired_roster e h)
unfolding refuse_expired_roster
Guards-refuse_expired_roster e h = search answering_rules

pub Guards-check_requested_address :
    (e : Reason → Body) (url : String) → Guards (check_requested_address e url)
unfolding check_requested_address
Guards-check_requested_address e url = search answering_rules

Guards-check_dialed : (e : Reason → Body) (url got : String) → Guards (check_dialed e url got)
unfolding check_dialed
Guards-check_dialed e url got = search answering_rules

pub Guards-resolve_base_url :
    (e : Reason → Body) (h : Connector) (id url : String) → Guards (resolve_base_url e h id url)
unfolding resolve_base_url
Guards-resolve_base_url e h id url = search (answering_rules, Guards-check_dialed) depth 15

ruleset negotiation_rules = (
  answering_rules, Guards-get, Guards-create, Guards-set_state, Guards-set_rerequested,
  Guards-get_consumer, Guards-create_consumer, Guards-set_consumer_state, Guards-create_agreement,
  Guards-check_envelope, Guards-refuse_if_not_party, Guards-or_state_update_error,
  Guards-or_re_request_error, Guards-lookup, Guards-lookup_consumer, Guards-refuse_expired_roster,
  Guards-check_requested_address, Guards-resolve_base_url,
)

module _ (r : Request) (provider : Negotiation → Act (Unit {0}))
    (consumer : ConsumerNegotiation → Act (Unit {0}))
    (Answers-provider : (n : Negotiation) → Answers (provider n))
    (Answers-consumer : (n : ConsumerNegotiation) → Answers (consumer n)) where
  Answers-try_consumer : (o : Option Negotiation) → Answers (try_consumer r provider consumer o)
  unfolding try_consumer
  Answers-try_consumer (some n) = Answers-provider n
  Answers-try_consumer none = search (negotiation_rules, Answers-consumer) depth 15

  Answers-by_role : Answers (by_role r provider consumer)
  unfolding by_role
  Answers-by_role = search (negotiation_rules, Answers-try_consumer) depth 15

Answers-handle_provider_accepted_event :
    (cfg : Config) (r : Request) (body : Option EventBody) (n : Negotiation)
    → Answers (handle_provider_accepted_event cfg r body n)
unfolding handle_provider_accepted_event
Answers-handle_provider_accepted_event cfg r body n = search negotiation_rules depth 40

Answers-handle_consumer_finalized_event :
    (cfg : Config) (r : Request) (body : Option EventBody) (n : ConsumerNegotiation)
    → Answers (handle_consumer_finalized_event cfg r body n)
unfolding handle_consumer_finalized_event
Answers-handle_consumer_finalized_event cfg r body n = search negotiation_rules depth 40

Answers-handle_provider_termination :
    (cfg : Config) (r : Request) (body : Option EnvelopeBody) (n : Negotiation)
    → Answers (handle_provider_termination cfg r body n)
unfolding handle_provider_termination
Answers-handle_provider_termination cfg r body n = search negotiation_rules depth 40

Answers-handle_consumer_termination :
    (cfg : Config) (r : Request) (body : Option EnvelopeBody) (n : ConsumerNegotiation)
    → Answers (handle_consumer_termination cfg r body n)
unfolding handle_consumer_termination
Answers-handle_consumer_termination cfg r body n = search negotiation_rules depth 40

Answers-get_as_provider :
    (cfg : Config) (r : Request) (n : Negotiation) → Answers (get_as_provider cfg r n)
unfolding get_as_provider
Answers-get_as_provider cfg r n = search negotiation_rules depth 10

Answers-get_as_consumer :
    (cfg : Config) (r : Request) (n : ConsumerNegotiation) → Answers (get_as_consumer cfg r n)
unfolding get_as_consumer
Answers-get_as_consumer cfg r n = search negotiation_rules depth 10

Answers-serve : (h : Connector) (r : Request) (call : Call) → Answers (serve h r call)
unfolding serve handle_contract_request handle_re_request handle_event handle_verification
    handle_termination handle_get_negotiation handle_initiate handle_offers handle_agreement
Answers-serve h r (contract_request body) = search negotiation_rules depth 40
Answers-serve h r (re_request body) = search negotiation_rules depth 40
Answers-serve h r (event body) =
    Answers-by_role r _ _ (Answers-handle_provider_accepted_event h.cfg r body)
      (Answers-handle_consumer_finalized_event h.cfg r body)
Answers-serve h r (verification body) = search negotiation_rules depth 40
Answers-serve h r (termination body) =
    Answers-by_role r _ _ (Answers-handle_provider_termination h.cfg r body)
      (Answers-handle_consumer_termination h.cfg r body)
Answers-serve h r get_negotiation =
    Answers-by_role r _ _ (Answers-get_as_provider h.cfg r) (Answers-get_as_consumer h.cfg r)
Answers-serve h r (initiate body) = search negotiation_rules depth 40
Answers-serve h r (offers body) = search negotiation_rules depth 40
Answers-serve h r (agreement body) = search negotiation_rules depth 40

-- Served in any environment, with any body and whichever calls fail, each negotiation endpoint
-- writes exactly one answer, after those that were there.
pub serve-answers_once :
    (h : Connector) (r : Request) (call : Call) (e : Env) (w : World)
    → OneMore w.replies (serve h r call e w).1.replies
serve-answers_once h r call e w = (Answers-serve h r call).at e w
