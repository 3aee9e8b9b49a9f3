-- ===== src/Negotiation/Decision.antt =====
-- The decisions of internal/dsp/negotiation.go: what a party does about a message, with no I/O.
pub mod Laws
use Prim.Native.String.{◌++◌}
use dataspace_in_a_box.Base.{
  ℕ, String, Bool, true, false, not, ◌&&◌, ◌||◌, none, some, List, [], ◌∷◌, ◌==◌, ltb,
  if◌then◌else◌,
}
use dataspace_in_a_box.Config.{
  Dataset, Config, ConsumerPolicy, OnOffer, OnAgreement, OnIdle, find_configured_dataset,
}
use dataspace_in_a_box.Message.{
  Operand, rfc3339, RawConstraint, constraint, undecodable, Permission,
}
use dataspace_in_a_box.Negotiation.State.{
  NegotiationState, requested, accepted, verified, same_state,
}

pub record NegotiationOutcome : Type 0 where
  pub push_offer : Bool
  pub push_agreement : Bool
  pub push_termination : Bool

abbrev pub outcome_none : NegotiationOutcome
outcome_none = record { push_offer = false; push_agreement = false; push_termination = false }

abbrev pub outcome_offer : NegotiationOutcome
outcome_offer = record { push_offer = true; push_agreement = false; push_termination = false }

abbrev pub outcome_agree : NegotiationOutcome
outcome_agree = record { push_offer = false; push_agreement = true; push_termination = false }

abbrev pub outcome_terminate : NegotiationOutcome
outcome_terminate = record { push_offer = false; push_agreement = false; push_termination = true }

abbrev pub outcome_offer_then_terminate : NegotiationOutcome
outcome_offer_then_terminate = record {
  push_offer = true;
  push_agreement = false;
  push_termination = true;
}

abbrev pub offer_id_suffix : String
offer_id_suffix = "#offer"

unfoldable pub is_valid : Dataset → ℕ → Bool
is_valid d now = elim d.validity_until [ none ↦ true | some until ↦ ltb now until ]

-- The `switch` on the two tests.
unfoldable pub decide_requested : Bool → Bool → NegotiationOutcome
decide_requested true true = outcome_agree
decide_requested true false = outcome_terminate
decide_requested false true = outcome_offer
decide_requested false false = outcome_offer_then_terminate

unfoldable pub decide_initial_request : Config → String → String → ℕ → NegotiationOutcome
unfolding decide_requested is_valid
decide_initial_request cfg dataset_id offer_id now = elim (find_configured_dataset cfg dataset_id) [
  | none ↦ outcome_none
  | some ds ↦ decide_requested (offer_id == (ds.id ++ offer_id_suffix)) (is_valid ds now)
]

unfoldable pub decide_accept : Config → String → ℕ → NegotiationOutcome
unfolding is_valid
decide_accept cfg dataset_id now = elim (find_configured_dataset cfg dataset_id) [
  | none ↦ outcome_terminate
  | some ds ↦ if is_valid ds now then outcome_agree else outcome_terminate
]

unfoldable pub decide_re_request_matches : String → String → Bool
decide_re_request_matches current_offer_id requested_offer_id =
    requested_offer_id == current_offer_id

is_timestamp : Operand → Bool
is_timestamp (rfc3339 t) = true
is_timestamp _ = false

is_validity_period : RawConstraint → Bool
unfolding is_timestamp
is_validity_period (constraint left operator right) =
    left == "dateTime" && operator == "lteq" && is_timestamp right
is_validity_period undecodable = false

unfoldable pub is_validity_period_constraint : List RawConstraint → Bool
unfolding is_validity_period
is_validity_period_constraint (c ∷ []) = is_validity_period c
is_validity_period_constraint _ = false

is_empty : List RawConstraint → Bool
is_empty [] = true
is_empty (c ∷ cs) = false

unfoldable pub has_unenforceable_constraint : List Permission → Bool
unfolding is_empty is_validity_period_constraint
has_unenforceable_constraint [] = false
has_unenforceable_constraint (p ∷ ps) =
    not (is_empty p.constraints) && not (is_validity_period_constraint p.constraints)
    || has_unenforceable_constraint ps

unfoldable pub decide_offer_reaction : OnOffer → Bool → OnOffer
decide_offer_reaction OnOffer.accept true = OnOffer.reject
decide_offer_reaction on_offer _ = on_offer

unfoldable pub decide_agreement_reaction : OnAgreement → Bool → Bool → OnAgreement
decide_agreement_reaction OnAgreement.verify unenforceable wrong_target =
    if unenforceable || wrong_target then OnAgreement.reject else OnAgreement.verify
decide_agreement_reaction on_agreement _ _ = on_agreement

offer_or_default : OnOffer → OnOffer
offer_or_default OnOffer.unset = OnOffer.accept
offer_or_default word = word

agreement_or_default : OnAgreement → OnAgreement
agreement_or_default OnAgreement.unset = OnAgreement.verify
agreement_or_default word = word

idle_or_default : OnIdle → OnIdle
idle_or_default OnIdle.unset = OnIdle.wait
idle_or_default word = word

unfoldable pub normalized_policy : ConsumerPolicy → ConsumerPolicy
unfolding offer_or_default agreement_or_default idle_or_default
normalized_policy p = record p {
  on_offer = offer_or_default p.on_offer;
  on_agreement = agreement_or_default p.on_agreement;
  on_idle = idle_or_default p.on_idle;
}

resolve_policy_in : List ConsumerPolicy → String → ConsumerPolicy
unfolding normalized_policy
resolve_policy_in [] dataset_id = normalized_policy (record {
  dataset_id = dataset_id;
  on_offer = OnOffer.unset;
  on_agreement = OnAgreement.unset;
  on_idle = OnIdle.unset;
})
resolve_policy_in (p ∷ ps) dataset_id =
    if p.dataset_id == dataset_id then normalized_policy p else resolve_policy_in ps dataset_id

unfoldable pub resolve_policy : Config → String → ConsumerPolicy
unfolding resolve_policy_in
resolve_policy cfg dataset_id = resolve_policy_in cfg.consumer_policies dataset_id

unfoldable pub offer_legal_from : NegotiationState → Bool
offer_legal_from state = same_state state requested

unfoldable pub agreement_legal_from : NegotiationState → Bool
agreement_legal_from state = same_state state requested || same_state state accepted

unfoldable pub finalized_event_legal_from : NegotiationState → Bool
finalized_event_legal_from state = same_state state verified
