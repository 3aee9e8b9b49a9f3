-- ===== src/Negotiation/Safety/Consumer.antt =====
-- The consumer role of internal/dsp/negotiation_consumer_handler.go keeps the guarantee.
use dataspace_in_a_box.Base.{String, ◌≡◌, refl, ◌∙◌, Bool, true, false, Option, none, some, arith}
use dataspace_in_a_box.Config.{Config, OnOffer, OnAgreement, OnIdle}
use dataspace_in_a_box.Message.{Reason, Body, Message}
use dataspace_in_a_box.Store.Rows.{ConsumerNegotiation}
use dataspace_in_a_box.Action.{Result, ok, err, Act, pure, return_now, ◌>>=◌}
use dataspace_in_a_box.Guarantee.{
  Safe, safe_rules, Grows-refl, Safe-assoc, Safe-pure-bind, Safe-if-bind, Safe-pure,
  Safe-return_now, Safe-bind,
}
use dataspace_in_a_box.Store.Safety.{
  Safe-get_consumer, Safe-create_consumer, Safe-set_consumer_state, Safe-set_consumer_provider_pid,
  Safe-create_agreement,
}
use dataspace_in_a_box.Negotiation.State.{
  NegotiationState, requested, offered, accepted, agreed, verified, finalized, terminated, ◌⟶◌,
  moves,
}
use dataspace_in_a_box.Negotiation.Decision.{
  offer_legal_from, agreement_legal_from, finalized_event_legal_from,
}
use dataspace_in_a_box.Envelope.{Request}
use dataspace_in_a_box.Initiate.{
  Connector, refuse_expired_roster, check_requested_address, check_dialed, resolve_base_url,
}
use dataspace_in_a_box.Negotiation.Provider.{EventBody, EnvelopeBody}
use dataspace_in_a_box.Negotiation.Consumer.{
  InitiateBody, OfferBody, AgreementBody, send, send_counter_request, send_accepted_event,
  send_verification, send_consumer_termination, handle_initiate, terminate, apply_on_idle,
  or_failed, run_start_negotiation, lookup_consumer, handle_offers, adopt_pid, resolve_provider_pid,
  apply_on_offer, run_react_to_offer, handle_agreement, when, apply_on_agreement,
  run_react_to_agreement, handle_consumer_finalized_event, handle_consumer_termination,
}
use dataspace_in_a_box.Negotiation.Safety.Provider.{
  Safe-check_envelope, Safe-refuse_if_not_party, Safe-or_state_update_error, terminate_live,
}

pub Safe-refuse_expired_roster :
    (e : Reason → Body) (h : Connector) → Safe (refuse_expired_roster e h)
unfolding refuse_expired_roster
Safe-refuse_expired_roster e h = search safe_rules

pub Safe-check_requested_address :
    (e : Reason → Body) (address : String) → Safe (check_requested_address e address)
unfolding check_requested_address
Safe-check_requested_address e address = search safe_rules

Safe-check_dialed : (e : Reason → Body) (url address : String) → Safe (check_dialed e url address)
unfolding check_dialed
Safe-check_dialed e url address = search safe_rules depth 10

pub Safe-resolve_base_url :
    (e : Reason → Body) (h : Connector) (id address : String)
    → Safe (resolve_base_url e h id address)
unfolding resolve_base_url
Safe-resolve_base_url e h id address = search (safe_rules, Safe-check_dialed) depth 15

pub ruleset initiate_rules =
    (Safe-refuse_expired_roster, Safe-check_requested_address, Safe-resolve_base_url)

pub Safe-handle_initiate :
    (h : Connector) (body : Option InitiateBody) → Safe (handle_initiate h body)
unfolding handle_initiate
Safe-handle_initiate h body = search (safe_rules, initiate_rules, Safe-create_consumer) depth 40

Safe-send :
    (n : ConsumerNegotiation) (path : String) (message : Message) → Safe (send n path message)
unfolding send
Safe-send n path message = search safe_rules

Safe-send_counter_request : (n : ConsumerNegotiation) → Safe (send_counter_request n)
unfolding send_counter_request
Safe-send_counter_request n = Safe-send n _ _

Safe-send_accepted_event : (n : ConsumerNegotiation) → Safe (send_accepted_event n)
unfolding send_accepted_event
Safe-send_accepted_event n = Safe-send n _ _

Safe-send_verification : (n : ConsumerNegotiation) → Safe (send_verification n)
unfolding send_verification
Safe-send_verification n = Safe-send n _ _

Safe-send_consumer_termination : (n : ConsumerNegotiation) → Safe (send_consumer_termination n)
unfolding send_consumer_termination
Safe-send_consumer_termination n = Safe-send n _ _

Safe-terminate : (n : ConsumerNegotiation) → n.state ⟶ terminated → Safe (terminate n)
unfolding terminate
Safe-terminate n m =
    search (safe_rules, Safe-send_consumer_termination, Safe-set_consumer_state) depth 10

Safe-apply_on_idle :
    (word : OnIdle) (n : ConsumerNegotiation) → n.state ⟶ terminated → Safe (apply_on_idle word n)
unfolding apply_on_idle
Safe-apply_on_idle OnIdle.abandon n m = Safe-terminate n m
Safe-apply_on_idle _ n m = Safe-pure tt

pub Safe-or_failed : (o : Option String) → Safe (or_failed o)
unfolding or_failed
Safe-or_failed none = Safe-return_now
Safe-or_failed (some pid) = Safe-pure pid

pub Safe-run_start_negotiation :
    (cfg : Config) (n : ConsumerNegotiation)
    → n.state ≡ requested
    → Safe (run_start_negotiation cfg n)
unfolding run_start_negotiation
Safe-run_start_negotiation cfg n h =
    let m : n.state ⟶ terminated = rw h (search moves) in
    search (safe_rules, m, Safe-or_failed, Safe-set_consumer_provider_pid, Safe-apply_on_idle) depth
      15

Safe-lookup_consumer : (cfg : Config) (r : Request) → Safe (lookup_consumer cfg r)
unfolding lookup_consumer
Safe-lookup_consumer cfg r =
    search (safe_rules, Safe-get_consumer, Safe-refuse_if_not_party) depth 15

-- The moves that the legality tests allow.
offer_legal : (s : NegotiationState) → offer_legal_from s ≡ true → s ⟶ offered
unfolding offer_legal_from
offer_legal requested h = search moves
offer_legal _ h = absurd (ground arith)

agreement_legal : (s : NegotiationState) → agreement_legal_from s ≡ true → s ⟶ agreed
unfolding agreement_legal_from
agreement_legal requested h = search moves
agreement_legal accepted h = search moves
agreement_legal _ h = absurd (ground arith)

finalized_legal : (s : NegotiationState) → finalized_event_legal_from s ≡ true → s ⟶ finalized
unfolding finalized_event_legal_from
finalized_legal verified h = search moves
finalized_legal _ h = absurd (ground arith)

ruleset consumer_rules = (
  safe_rules, Safe-set_consumer_state, Safe-create_agreement, Safe-check_envelope,
  Safe-refuse_if_not_party, Safe-or_state_update_error, Safe-lookup_consumer, offer_legal,
  agreement_legal, finalized_legal, terminate_live,
)

pub Safe-handle_offers :
    (cfg : Config) (r : Request) (body : Option OfferBody) → Safe (handle_offers cfg r body)
unfolding handle_offers
Safe-handle_offers cfg r body = search consumer_rules depth 40

pub Safe-handle_agreement :
    (cfg : Config) (r : Request) (body : Option AgreementBody) → Safe (handle_agreement cfg r body)
unfolding handle_agreement
Safe-handle_agreement cfg r body = search consumer_rules depth 40

pub Safe-handle_consumer_finalized_event :
    (cfg : Config) (r : Request) (body : Option EventBody) (n : ConsumerNegotiation)
    → Safe (handle_consumer_finalized_event cfg r body n)
unfolding handle_consumer_finalized_event
Safe-handle_consumer_finalized_event cfg r body n = search consumer_rules depth 40

pub Safe-handle_consumer_termination :
    (cfg : Config) (r : Request) (body : Option EnvelopeBody) (n : ConsumerNegotiation)
    → Safe (handle_consumer_termination cfg r body n)
unfolding handle_consumer_termination
Safe-handle_consumer_termination cfg r body n = search consumer_rules depth 40

-- The re-read of the row adopts nothing but the provider pid.
adopted_state :
    (n : ConsumerNegotiation) (r : Result (Option ConsumerNegotiation))
    → (adopt_pid n r).state ≡ n.state
unfolding adopt_pid
adopted_state n (ok (some current)) = refl
adopted_state n (ok none) = refl
adopted_state n (err x) = refl

Safe-apply_on_offer :
    (word : OnOffer) (n : ConsumerNegotiation) → n.state ≡ offered → Safe (apply_on_offer word n)
unfolding apply_on_offer
Safe-apply_on_offer OnOffer.accept n h =
    let m : n.state ⟶ accepted = rw h (search moves) in
    search (safe_rules, m, Safe-send_accepted_event, Safe-set_consumer_state) depth 10
Safe-apply_on_offer OnOffer.reject n h =
    let m : n.state ⟶ terminated = rw h (search moves) in Safe-terminate n m
Safe-apply_on_offer OnOffer.counter n h = search (safe_rules, Safe-send_counter_request) depth 10
Safe-apply_on_offer OnOffer.passive n h = Safe-pure tt
Safe-apply_on_offer OnOffer.unset n h = Safe-pure tt

-- What follows the re-read may use the state that the goroutine was started with.
Safe-after_resolve :
    (n : ConsumerNegotiation) (f : ConsumerNegotiation → Act (Unit {0}))
    → ((m : ConsumerNegotiation) → m.state ≡ n.state → Safe (f m))
    → Safe (resolve_provider_pid n >>= f)
unfolding resolve_provider_pid
Safe-after_resolve n f follows =
    Safe-if-bind _ _ _ f
      (Safe-assoc _ _ f (
        Safe-bind _ _ (Safe-get_consumer n.consumer_pid)
          λ r. Safe-pure-bind (adopt_pid n r) f (follows (adopt_pid n r) (adopted_state n r))))
      (Safe-pure-bind n f (follows n refl))

pub Safe-run_react_to_offer :
    (cfg : Config) (n : ConsumerNegotiation) (unenforceable : Bool)
    → n.state ≡ offered
    → Safe (run_react_to_offer cfg n unenforceable)
unfolding run_react_to_offer
Safe-run_react_to_offer cfg n unenforceable h =
    Safe-after_resolve n _ (λ m e. Safe-apply_on_offer _ m (e ∙ h))

-- What follows `when` may use that its test passed.
Safe-when :
    (test : Bool) (f : Unit {0} → Act (Unit {0}))
    → (test ≡ true → Safe (f tt))
    → Safe (when test >>= f)
unfolding when pure return_now ◌>>=◌
Safe-when true f h = h refl
Safe-when false f h = record { at = λ e rely w. Grows-refl w }

Safe-apply_on_agreement :
    (word : OnAgreement) (n : ConsumerNegotiation)
    → n.state ≡ agreed
    → Safe (apply_on_agreement word n)
unfolding apply_on_agreement
Safe-apply_on_agreement OnAgreement.verify n h =
    let m : n.state ⟶ verified = rw h (search moves) in
    search (safe_rules, m, Safe-when, Safe-send_verification, Safe-set_consumer_state) depth 10
Safe-apply_on_agreement OnAgreement.reject n h =
    let m : n.state ⟶ terminated = rw h (search moves) in Safe-terminate n m
Safe-apply_on_agreement OnAgreement.unset n h = Safe-pure tt

pub Safe-run_react_to_agreement :
    (cfg : Config) (n : ConsumerNegotiation) (unenforceable wrong_target : Bool)
    → n.state ≡ agreed
    → Safe (run_react_to_agreement cfg n unenforceable wrong_target)
unfolding run_react_to_agreement
Safe-run_react_to_agreement cfg n unenforceable wrong_target h =
    Safe-after_resolve n _ (λ m e. Safe-apply_on_agreement _ m (e ∙ h))
