-- ===== src/Negotiation/Reactions.antt =====
-- What the consumer's reactions may push to the provider.
use dataspace_in_a_box.Base.{ℕ, String, ◌≡◌, Bool, true, false, ◌||◌}
use dataspace_in_a_box.Config.{Config, OnOffer, OnAgreement}
use dataspace_in_a_box.Message.{Push, accepted_event, verification_message}
use dataspace_in_a_box.Store.Rows.{ConsumerNegotiation}
use dataspace_in_a_box.Action.{Result, ok, err, Act}
use dataspace_in_a_box.Sending.{SendsOnly, sending_rules}
use dataspace_in_a_box.Negotiation.State.{NegotiationState}
use dataspace_in_a_box.Negotiation.Decision.{decide_offer_reaction, decide_agreement_reaction}
use dataspace_in_a_box.Negotiation.Build.{
  build_counter_request_message, build_consumer_termination_message,
}
use dataspace_in_a_box.Store.Negotiations.{
  get_consumer, explain_no_consumer_update, conclude, set_consumer_state,
}
use dataspace_in_a_box.Negotiation.Consumer.{
  send, send_counter_request, send_consumer_termination, terminate, resolve_provider_pid,
  apply_on_offer, run_react_to_offer, apply_on_agreement, run_react_to_agreement,
}

-- A push that neither accepts an offer nor verifies an agreement.
abbrev pub Declines : Push → Type 0
Declines p = elim p.message [ accepted_event a b ↦ ⊥ | verification_message a b ↦ ⊥ | _ ↦ Unit ]

SendsOnly-get_consumer : (P : Push → Type 0) (pid : String) → SendsOnly P (get_consumer pid)
unfolding get_consumer
SendsOnly-get_consumer P pid = search sending_rules

SendsOnly-conclude :
    (P : Push → Type 0) (r : Result Bool) (explain : Act (Result (Unit {0})))
    → SendsOnly P explain
    → SendsOnly P (conclude r explain)
unfolding conclude
SendsOnly-conclude P (ok true) explain h = search sending_rules
SendsOnly-conclude P (ok false) explain h = h
SendsOnly-conclude P (err x) explain h = search sending_rules

SendsOnly-set_consumer_state :
    (P : Push → Type 0) (pid : String) (from to : NegotiationState) (at : ℕ)
    → SendsOnly P (set_consumer_state pid from to at)
unfolding set_consumer_state explain_no_consumer_update
SendsOnly-set_consumer_state P pid from to at =
    search (sending_rules, SendsOnly-conclude, SendsOnly-get_consumer) depth 10

SendsOnly-resolve_provider_pid :
    (P : Push → Type 0) (n : ConsumerNegotiation) → SendsOnly P (resolve_provider_pid n)
unfolding resolve_provider_pid
SendsOnly-resolve_provider_pid P n = search (sending_rules, SendsOnly-get_consumer) depth 10

Declines-terminate : (n : ConsumerNegotiation) → SendsOnly Declines (terminate n)
unfolding terminate send_consumer_termination send build_consumer_termination_message
Declines-terminate n = search (sending_rules, SendsOnly-set_consumer_state) depth 10

Declines-counter : (n : ConsumerNegotiation) → SendsOnly Declines (send_counter_request n)
unfolding send_counter_request send build_counter_request_message
Declines-counter n = search sending_rules

Declines-on_offer :
    (word : OnOffer) (n : ConsumerNegotiation)
    → SendsOnly Declines (apply_on_offer (decide_offer_reaction word true) n)
unfolding apply_on_offer decide_offer_reaction
Declines-on_offer OnOffer.accept n = Declines-terminate n
Declines-on_offer OnOffer.reject n = Declines-terminate n
Declines-on_offer OnOffer.counter n = search (sending_rules, Declines-counter) depth 10
Declines-on_offer OnOffer.passive n = search sending_rules
Declines-on_offer OnOffer.unset n = search sending_rules

Declines-on_agreement :
    (word : OnAgreement) (n : ConsumerNegotiation) (unenforceable wrong_target : Bool)
    → (unenforceable || wrong_target) ≡ true
    → SendsOnly Declines
        (apply_on_agreement (decide_agreement_reaction word unenforceable wrong_target) n)
unfolding apply_on_agreement decide_agreement_reaction
Declines-on_agreement OnAgreement.verify n u t h = rw h (Declines-terminate n)
Declines-on_agreement OnAgreement.reject n u t h = Declines-terminate n
Declines-on_agreement OnAgreement.unset n u t h = search sending_rules

-- Whatever the configured policy says and the environment does, the goroutine that reacts to an
-- offer with a constraint that cannot be enforced sends no acceptance.
pub run_react_to_offer-Declines :
    (cfg : Config) (n : ConsumerNegotiation) → SendsOnly Declines (run_react_to_offer cfg n true)
unfolding run_react_to_offer
run_react_to_offer-Declines cfg n =
    search (sending_rules, SendsOnly-resolve_provider_pid, Declines-on_offer) depth 10

-- Whatever the configured policy says and the environment does, the goroutine that reacts to an
-- agreement that cannot be enforced, or that is for another dataset, sends no verification.
pub run_react_to_agreement-Declines :
    (cfg : Config) (n : ConsumerNegotiation) (unenforceable wrong_target : Bool)
    → (unenforceable || wrong_target) ≡ true
    → SendsOnly Declines (run_react_to_agreement cfg n unenforceable wrong_target)
unfolding run_react_to_agreement
run_react_to_agreement-Declines cfg n u t h =
    search (sending_rules, SendsOnly-resolve_provider_pid, Declines-on_agreement) depth 10
