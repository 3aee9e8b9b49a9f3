-- ===== src/Negotiation/Safety/Provider.antt =====
-- The provider role of internal/dsp/negotiation_handler.go keeps the guarantee.
use dataspace_in_a_box.Base.{
  ℕ, String, ◌≡◌, refl, Bool, true, false, not, ◌&&◌, ◌||◌, Option, none, some, List, arith,
  if◌then◌else◌,
}
use dataspace_in_a_box.Config.{Config, find_configured_dataset}
use dataspace_in_a_box.Message.{Reason, Body, Message}
use dataspace_in_a_box.Store.Rows.{Negotiation}
use dataspace_in_a_box.Task.{Task, push_and_store}
use dataspace_in_a_box.Action.{
  Result, ok, err, Act, pure, return_now, ◌>>=◌, not_found, state_changed, failed,
}
use dataspace_in_a_box.Guarantee.{
  Safe, safe_rules, CanDispatch, Admissible, Grows-refl, Safe-pure, Safe-return_now,
  Safe-require_alone,
}
use dataspace_in_a_box.Store.Safety.{
  Safe-get, Safe-create, Safe-set_state, Safe-set_rerequested,
  Safe-create_agreement_if_negotiation_agreed,
}
use dataspace_in_a_box.Negotiation.State.{
  NegotiationState, requested, offered, accepted, agreed, verified, finalized, terminated,
  same_state, same_state_iff, ◌⟶◌, moves,
}
use dataspace_in_a_box.Negotiation.Decision.{NegotiationOutcome, decide_accept}
use dataspace_in_a_box.Envelope.{Request, check_envelope, refuse_if_not_party}
use dataspace_in_a_box.Negotiation.Build.{build_termination_message, build_finalized_event_message}
use dataspace_in_a_box.Negotiation.Provider.{
  RequestMessage, EventBody, EnvelopeBody, or_state_update_error, or_re_request_error, lookup,
  handle_contract_request, handle_re_request, handle_provider_accepted_event, handle_verification,
  handle_provider_termination, push_then_store, record_issued_agreement, run_dispatch, or_gone,
  when, run_delayed_terminate, terminates_on_verify, after_verification,
}

pub Safe-check_envelope :
    (e : Reason → Body) (context : List String) (got want : String)
    → Safe (check_envelope e context got want)
unfolding check_envelope
Safe-check_envelope e context got want = search safe_rules

pub Safe-refuse_if_not_party :
    (e : Reason → Body) (cfg : Config) (r : Request) (stored : String)
    → Safe (refuse_if_not_party e cfg r stored)
unfolding refuse_if_not_party
Safe-refuse_if_not_party e cfg r stored = Safe-require_alone _ _

pub Safe-or_state_update_error : (r : Result (Unit {0})) → Safe (or_state_update_error r)
unfolding or_state_update_error
Safe-or_state_update_error (ok u) = search safe_rules
Safe-or_state_update_error (err state_changed) = search safe_rules
Safe-or_state_update_error (err not_found) = search safe_rules
Safe-or_state_update_error (err failed) = search safe_rules

Safe-or_re_request_error : (r : Result (Unit {0})) → Safe (or_re_request_error r)
unfolding or_re_request_error
Safe-or_re_request_error (ok u) = search safe_rules
Safe-or_re_request_error (err state_changed) = search safe_rules
Safe-or_re_request_error (err not_found) = search safe_rules
Safe-or_re_request_error (err failed) = search safe_rules

Safe-lookup : (cfg : Config) (r : Request) → Safe (lookup cfg r)
unfolding lookup
Safe-lookup cfg r = search (safe_rules, Safe-get, Safe-refuse_if_not_party) depth 15

pub Safe-handle_contract_request :
    (cfg : Config) (r : Request) (body : Option RequestMessage)
    → Safe (handle_contract_request cfg r body)
unfolding handle_contract_request
Safe-handle_contract_request cfg r body =
    search (safe_rules, Safe-create, Safe-check_envelope) depth 40

-- The move that a passed test of the state allows.
terminate_offered : (s : NegotiationState) → same_state s offered ≡ true → s ⟶ terminated
terminate_offered s h = rw ((same_state_iff s offered).0 h) (search moves)

accept_offered : (s : NegotiationState) → same_state s offered ≡ true → s ⟶ accepted
accept_offered s h = rw ((same_state_iff s offered).0 h) (search moves)

verify_agreed : (s : NegotiationState) → same_state s agreed ≡ true → s ⟶ verified
verify_agreed s h = rw ((same_state_iff s agreed).0 h) (search moves)

pub terminate_live :
    (s : NegotiationState)
    → not (same_state s finalized || same_state s terminated) ≡ true
    → s ⟶ terminated
terminate_live finalized h = absurd (ground arith)
terminate_live terminated h = absurd (ground arith)
terminate_live _ h = search moves

ruleset provider_rules = (
  safe_rules, Safe-get, Safe-set_state, Safe-set_rerequested, Safe-check_envelope,
  Safe-refuse_if_not_party, Safe-or_state_update_error, Safe-or_re_request_error, Safe-lookup,
  terminate_offered, accept_offered, verify_agreed, terminate_live,
)

pub Safe-handle_re_request :
    (cfg : Config) (r : Request) (body : Option RequestMessage)
    → Safe (handle_re_request cfg r body)
unfolding handle_re_request
Safe-handle_re_request cfg r body = search provider_rules depth 40

pub Safe-handle_provider_termination :
    (cfg : Config) (r : Request) (body : Option EnvelopeBody) (n : Negotiation)
    → Safe (handle_provider_termination cfg r body n)
unfolding handle_provider_termination
Safe-handle_provider_termination cfg r body n = search provider_rules depth 40

decide_accept-CanDispatch :
    (cfg : Config) (id : String) (now : ℕ) → (decide_accept cfg id now).push_offer ≡ false
unfolding decide_accept
decide_accept-CanDispatch cfg id now = ground arith

pub Safe-handle_provider_accepted_event :
    (cfg : Config) (r : Request) (body : Option EventBody) (n : Negotiation)
    → Safe (handle_provider_accepted_event cfg r body n)
unfolding handle_provider_accepted_event
Safe-handle_provider_accepted_event cfg r body n =
    search (provider_rules, decide_accept-CanDispatch) depth 40

Admissible-if :
    (b : Bool) (t u : Task) → Admissible t → Admissible u → Admissible (if b then t else u)
Admissible-if true t u ht hu = ht
Admissible-if false t u ht hu = hu

Admissible-after_verification :
    (cfg : Config) (n : Negotiation) → n.state ≡ verified → Admissible (after_verification cfg n)
unfolding after_verification
Admissible-after_verification cfg n h =
    let t : n.state ⟶ terminated = rw h (search moves) in
    let f : n.state ⟶ finalized = rw h (search moves) in
    Admissible-if (terminates_on_verify (find_configured_dataset cfg n.dataset_id))
      (push_and_store n terminated "/termination" (build_termination_message n))
      (push_and_store n finalized "/events" (build_finalized_event_message n)) t f

pub Safe-handle_verification :
    (cfg : Config) (r : Request) (body : Option EnvelopeBody)
    → Safe (handle_verification cfg r body)
unfolding handle_verification
Safe-handle_verification cfg r body =
    search (provider_rules, Admissible-after_verification) depth 40

pub Safe-push_then_store :
    (n : Negotiation) (state : NegotiationState) (path : String) (message : Message)
    → n.state ⟶ state
    → Safe (push_then_store n state path message)
unfolding push_then_store
Safe-push_then_store n state path message m = search provider_rules depth 20

Safe-record_issued_agreement : (n : Negotiation) → Safe (record_issued_agreement n)
unfolding record_issued_agreement
Safe-record_issued_agreement n =
    search (safe_rules, Safe-create_agreement_if_negotiation_agreed) depth 10

-- A decision that may be carried out from the state makes only moves of the protocol.
dispatch_offer :
    (s : NegotiationState) (o : NegotiationOutcome)
    → CanDispatch s o
    → o.push_offer ≡ true
    → s ⟶ offered
dispatch_offer requested o h e = search moves
dispatch_offer accepted o h e = absurd (ground arith)
dispatch_offer offered o h e = absurd h
dispatch_offer agreed o h e = absurd h
dispatch_offer verified o h e = absurd h
dispatch_offer finalized o h e = absurd h
dispatch_offer terminated o h e = absurd h

dispatch_agreement : (s : NegotiationState) (o : NegotiationOutcome) → CanDispatch s o → s ⟶ agreed
dispatch_agreement requested o h = search moves
dispatch_agreement accepted o h = search moves
dispatch_agreement offered o h = absurd h
dispatch_agreement agreed o h = absurd h
dispatch_agreement verified o h = absurd h
dispatch_agreement finalized o h = absurd h
dispatch_agreement terminated o h = absurd h

dispatch_termination :
    (s : NegotiationState) (o : NegotiationOutcome) → CanDispatch s o → s ⟶ terminated
dispatch_termination requested o h = search moves
dispatch_termination accepted o h = search moves
dispatch_termination offered o h = absurd h
dispatch_termination agreed o h = absurd h
dispatch_termination verified o h = absurd h
dispatch_termination finalized o h = absurd h
dispatch_termination terminated o h = absurd h

both_offer : (a b : Bool) → (a && b) ≡ true → a ≡ true
both_offer a b h = ground arith

pub Safe-run_dispatch :
    (cfg : Config) (n : Negotiation) (outcome : NegotiationOutcome)
    → CanDispatch n.state outcome
    → Safe (run_dispatch cfg n outcome)
unfolding run_dispatch
Safe-run_dispatch cfg n outcome h =
    search
      (
        safe_rules,
        Safe-push_then_store,
        Safe-record_issued_agreement,
        dispatch_offer n.state outcome,
        dispatch_agreement n.state outcome,
        dispatch_termination n.state outcome,
        both_offer,
      )
      depth 20

Safe-or_gone : (o : Option Negotiation) → Safe (or_gone o)
unfolding or_gone
Safe-or_gone none = Safe-return_now
Safe-or_gone (some n) = Safe-pure n

-- What follows `when` may use that its test passed.
Safe-when :
    (test : Bool) (f : Unit {0} → Act (Unit {0}))
    → (test ≡ true → Safe (f tt))
    → Safe (when test >>= f)
unfolding when pure return_now ◌>>=◌
Safe-when true f h = h refl
Safe-when false f h = record { at = λ e rely w. Grows-refl w }

pub Safe-run_delayed_terminate : (n : Negotiation) → Safe (run_delayed_terminate n)
unfolding run_delayed_terminate
Safe-run_delayed_terminate n =
    search (safe_rules, Safe-get, Safe-or_gone, Safe-when, Safe-push_then_store, terminate_offered)
      depth 20
