-- ===== src/Transfer/Safety/Endpoints.antt =====
-- The transfer endpoints that serve both roles keep the guarantee.
use dataspace_in_a_box.Base.{ℕ, String, ◌≡◌, Bool, true, Option, none, some}
use dataspace_in_a_box.Config.{Config}
use dataspace_in_a_box.Message.{DataAddress}
use dataspace_in_a_box.Store.Rows.{ConsumerTransfer}
use dataspace_in_a_box.Action.{Result, ok, err, not_found, state_changed, failed}
use dataspace_in_a_box.Guarantee.{Safe, safe_rules}
use dataspace_in_a_box.Store.Safety.{
  Safe-get_transfer, Safe-set_transfer_state, Safe-get_consumer_transfer,
  Safe-set_consumer_transfer_state,
}
use dataspace_in_a_box.Envelope.{Request}
use dataspace_in_a_box.Negotiation.Safety.Provider.{Safe-check_envelope, Safe-refuse_if_not_party}
use dataspace_in_a_box.Transfer.State.{
  TransferState, requested, started, completed, suspended, terminated, ◌⟶◌,
}
use dataspace_in_a_box.Transfer.Safety.Provider.{
  start_legal, provider_start_legal, completion_legal, suspension_legal, termination_legal,
}
use dataspace_in_a_box.Transfer.Safety.Consumer.{Safe-maybe_drive_consumer_transfer}
use dataspace_in_a_box.Transfer.Endpoints.{
  TransferEnvelope, ResolvedTransfer, as_provider, as_consumer, state_of, lookup_as_provider,
  lookup_by_role, lookup_transfer, handle_get_transfer, inbound_start_legal_for, set_resolved_state,
  or_transfer_update_error, pull_if_started, after_transition, apply_transition,
  handle_transfer_start, handle_transfer_completion, handle_transfer_suspension,
  handle_transfer_termination,
}

Safe-lookup_as_provider : (cfg : Config) (r : Request) → Safe (lookup_as_provider cfg r)
unfolding lookup_as_provider
Safe-lookup_as_provider cfg r =
    search (safe_rules, Safe-get_transfer, Safe-refuse_if_not_party) depth 15

Safe-lookup_by_role :
    (cfg : Config) (r : Request) (o : Option ConsumerTransfer) → Safe (lookup_by_role cfg r o)
unfolding lookup_by_role
Safe-lookup_by_role cfg r (some t) = search (safe_rules, Safe-refuse_if_not_party) depth 10
Safe-lookup_by_role cfg r none = Safe-lookup_as_provider cfg r

Safe-lookup_transfer : (cfg : Config) (r : Request) → Safe (lookup_transfer cfg r)
unfolding lookup_transfer
Safe-lookup_transfer cfg r =
    search (safe_rules, Safe-get_consumer_transfer, Safe-lookup_by_role) depth 10

pub Safe-handle_get_transfer : (cfg : Config) (r : Request) → Safe (handle_get_transfer cfg r)
unfolding handle_get_transfer
Safe-handle_get_transfer cfg r = search (safe_rules, Safe-lookup_transfer) depth 10

Safe-set_resolved_state :
    (t : ResolvedTransfer) (to : TransferState) (at : ℕ)
    → state_of t ⟶ to
    → Safe (set_resolved_state t to at)
unfolding set_resolved_state state_of
Safe-set_resolved_state (as_consumer t) to at m = Safe-set_consumer_transfer_state _ _ to at m
Safe-set_resolved_state (as_provider t) to at m = Safe-set_transfer_state _ _ to at m

Safe-or_transfer_update_error : (r : Result (Unit {0})) → Safe (or_transfer_update_error r)
unfolding or_transfer_update_error
Safe-or_transfer_update_error (ok u) = search safe_rules
Safe-or_transfer_update_error (err state_changed) = search safe_rules
Safe-or_transfer_update_error (err not_found) = search safe_rules
Safe-or_transfer_update_error (err failed) = search safe_rules

Safe-pull_if_started :
    (t : ConsumerTransfer) (to : TransferState) (address : Option DataAddress)
    → Safe (pull_if_started t to address)
unfolding pull_if_started
Safe-pull_if_started t started (some address) = search safe_rules
Safe-pull_if_started t started none = search safe_rules
Safe-pull_if_started t requested address = search safe_rules
Safe-pull_if_started t completed address = search safe_rules
Safe-pull_if_started t suspended address = search safe_rules
Safe-pull_if_started t terminated address = search safe_rules

Safe-after_transition :
    (cfg : Config) (t : ResolvedTransfer) (to : TransferState) (address : Option DataAddress)
    → Safe (after_transition cfg t to address)
unfolding after_transition
Safe-after_transition cfg (as_provider t) to address = search safe_rules
Safe-after_transition cfg (as_consumer t) to address =
    search (safe_rules, Safe-pull_if_started, Safe-maybe_drive_consumer_transfer) depth 10

module _ (cfg : Config) (r : Request) (body : Option TransferEnvelope) where
  Safe-apply_transition :
      (want_type : String) (legal_from : ResolvedTransfer → TransferState → Bool)
      (to : TransferState)
      → ((t : ResolvedTransfer) → legal_from t (state_of t) ≡ true → state_of t ⟶ to)
      → Safe (apply_transition cfg r body want_type legal_from to)
  unfolding apply_transition
  Safe-apply_transition want_type legal_from to h =
      search
        (
          safe_rules, Safe-lookup_transfer, Safe-check_envelope, h, Safe-set_resolved_state,
          Safe-or_transfer_update_error, Safe-after_transition,
        )
        depth 40

  inbound_start_legal :
      (t : ResolvedTransfer) → inbound_start_legal_for t (state_of t) ≡ true → state_of t ⟶ started
  unfolding inbound_start_legal_for state_of
  inbound_start_legal (as_consumer t) h = start_legal t.state h
  inbound_start_legal (as_provider t) h = provider_start_legal t.state h

  pub Safe-handle_transfer_start : Safe (handle_transfer_start cfg r body)
  unfolding handle_transfer_start
  Safe-handle_transfer_start = Safe-apply_transition _ _ started inbound_start_legal

  pub Safe-handle_transfer_completion : Safe (handle_transfer_completion cfg r body)
  unfolding handle_transfer_completion
  Safe-handle_transfer_completion =
      Safe-apply_transition _ _ completed (λ t h. completion_legal (state_of t) h)

  pub Safe-handle_transfer_suspension : Safe (handle_transfer_suspension cfg r body)
  unfolding handle_transfer_suspension
  Safe-handle_transfer_suspension =
      Safe-apply_transition _ _ suspended (λ t h. suspension_legal (state_of t) h)

  pub Safe-handle_transfer_termination : Safe (handle_transfer_termination cfg r body)
  unfolding handle_transfer_termination
  Safe-handle_transfer_termination =
      Safe-apply_transition _ _ terminated (λ t h. termination_legal (state_of t) h)
