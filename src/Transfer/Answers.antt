-- ===== src/Transfer/Answers.antt =====
-- Every transfer endpoint answers its request exactly once.
use dataspace_in_a_box.Base.{ℕ, String, Bool, Option, none, some}
use dataspace_in_a_box.Config.{Config}
use dataspace_in_a_box.Message.{DataAddress}
use dataspace_in_a_box.Store.Rows.{TransferProcess, ConsumerTransfer}
use dataspace_in_a_box.Action.{Result, ok, err, not_found, state_changed, failed, Env, World}
use dataspace_in_a_box.Answering.{Quiet, Guards, Answers, OneMore, answering_rules}
use dataspace_in_a_box.Envelope.{Request}
use dataspace_in_a_box.Initiate.{Connector}
use dataspace_in_a_box.Negotiation.Answers.{
  Guards-conclude, Guards-check_envelope, Guards-refuse_if_not_party, Guards-refuse_expired_roster,
  Guards-check_requested_address, Guards-resolve_base_url,
}
use dataspace_in_a_box.Transfer.State.{
  TransferState, requested, started, completed, suspended, terminated,
}
use dataspace_in_a_box.Store.Agreements.{get_agreement}
use dataspace_in_a_box.Store.Transfers.{
  get_transfer, create_transfer, explain_no_transfer_update, set_transfer_state,
  get_consumer_transfer, create_consumer_transfer, explain_no_consumer_transfer_update,
  set_consumer_transfer_state,
}
use dataspace_in_a_box.Transfer.Provider.{handle_transfer_request}
use dataspace_in_a_box.Transfer.Consumer.{handle_transfer_initiate, maybe_drive_consumer_transfer}
use dataspace_in_a_box.Transfer.Endpoints.{
  TransferEnvelope, ResolvedTransfer, as_provider, as_consumer, lookup_as_provider, lookup_by_role,
  lookup_transfer, handle_get_transfer, set_resolved_state, or_transfer_update_error,
  pull_if_started, after_transition, apply_transition, handle_transfer_start,
  handle_transfer_completion, handle_transfer_suspension, handle_transfer_termination,
}
use dataspace_in_a_box.Transfer.Service.{
  TransferCall, transfer_request, transfer_initiate, get_transfer_call, transfer_start,
  transfer_completion, transfer_suspension, transfer_termination, serve_transfer,
}

Guards-get_agreement : (id : String) → Guards (get_agreement id)
unfolding get_agreement
Guards-get_agreement id = search answering_rules

Guards-create_transfer : (t : TransferProcess) → Guards (create_transfer t)
unfolding create_transfer
Guards-create_transfer t = search answering_rules

Guards-create_consumer_transfer : (t : ConsumerTransfer) → Guards (create_consumer_transfer t)
unfolding create_consumer_transfer
Guards-create_consumer_transfer t = search answering_rules

Guards-get_transfer : (pid : String) → Guards (get_transfer pid)
unfolding get_transfer
Guards-get_transfer pid = search answering_rules

Guards-get_consumer_transfer : (pid : String) → Guards (get_consumer_transfer pid)
unfolding get_consumer_transfer
Guards-get_consumer_transfer pid = search answering_rules

Guards-set_resolved_state :
    (t : ResolvedTransfer) (to : TransferState) (at : ℕ) → Guards (set_resolved_state t to at)
unfolding set_resolved_state set_transfer_state set_consumer_transfer_state
    explain_no_transfer_update explain_no_consumer_transfer_update
Guards-set_resolved_state (as_consumer t) to at =
    search (answering_rules, Guards-conclude, Guards-get_consumer_transfer) depth 10
Guards-set_resolved_state (as_provider t) to at =
    search (answering_rules, Guards-conclude, Guards-get_transfer) depth 10

Guards-lookup_as_provider : (cfg : Config) (r : Request) → Guards (lookup_as_provider cfg r)
unfolding lookup_as_provider
Guards-lookup_as_provider cfg r =
    search (answering_rules, Guards-get_transfer, Guards-refuse_if_not_party) depth 15

Guards-lookup_by_role :
    (cfg : Config) (r : Request) (o : Option ConsumerTransfer) → Guards (lookup_by_role cfg r o)
unfolding lookup_by_role
Guards-lookup_by_role cfg r (some t) = search (answering_rules, Guards-refuse_if_not_party) depth 10
Guards-lookup_by_role cfg r none = Guards-lookup_as_provider cfg r

Guards-lookup_transfer : (cfg : Config) (r : Request) → Guards (lookup_transfer cfg r)
unfolding lookup_transfer
Guards-lookup_transfer cfg r =
    search (answering_rules, Guards-get_consumer_transfer, Guards-lookup_by_role) depth 10

Guards-or_transfer_update_error : (r : Result (Unit {0})) → Guards (or_transfer_update_error r)
unfolding or_transfer_update_error
Guards-or_transfer_update_error (ok u) = search answering_rules
Guards-or_transfer_update_error (err state_changed) = search answering_rules
Guards-or_transfer_update_error (err not_found) = search answering_rules
Guards-or_transfer_update_error (err failed) = search answering_rules

-- What follows the answer does not answer again.
Quiet-pull_if_started :
    (t : ConsumerTransfer) (to : TransferState) (address : Option DataAddress)
    → Quiet (pull_if_started t to address)
unfolding pull_if_started
Quiet-pull_if_started t started (some address) = search answering_rules
Quiet-pull_if_started t started none = search answering_rules
Quiet-pull_if_started t requested address = search answering_rules
Quiet-pull_if_started t completed address = search answering_rules
Quiet-pull_if_started t suspended address = search answering_rules
Quiet-pull_if_started t terminated address = search answering_rules

Quiet-maybe_drive_consumer_transfer :
    (cfg : Config) (t : ConsumerTransfer) (reached : TransferState)
    → Quiet (maybe_drive_consumer_transfer cfg t reached)
unfolding maybe_drive_consumer_transfer
Quiet-maybe_drive_consumer_transfer cfg t reached = search answering_rules

Quiet-after_transition :
    (cfg : Config) (t : ResolvedTransfer) (to : TransferState) (address : Option DataAddress)
    → Quiet (after_transition cfg t to address)
unfolding after_transition
Quiet-after_transition cfg (as_provider t) to address = search answering_rules
Quiet-after_transition cfg (as_consumer t) to address =
    search (answering_rules, Quiet-pull_if_started, Quiet-maybe_drive_consumer_transfer) depth 10

ruleset transfer_rules = (
  answering_rules, Guards-check_envelope, Guards-get_agreement, Guards-create_transfer,
  Guards-create_consumer_transfer, Guards-refuse_expired_roster, Guards-check_requested_address,
  Guards-resolve_base_url, Guards-lookup_transfer, Guards-set_resolved_state,
  Guards-or_transfer_update_error, Quiet-after_transition,
)

Answers-apply_transition :
    (cfg : Config) (r : Request) (body : Option TransferEnvelope) (want_type : String)
    (legal_from : ResolvedTransfer → TransferState → Bool) (to : TransferState)
    → Answers (apply_transition cfg r body want_type legal_from to)
unfolding apply_transition
Answers-apply_transition cfg r body want_type legal_from to = search transfer_rules depth 40

Answers-serve_transfer :
    (h : Connector) (r : Request) (call : TransferCall) → Answers (serve_transfer h r call)
unfolding serve_transfer handle_transfer_request handle_transfer_initiate handle_get_transfer
    handle_transfer_start handle_transfer_completion handle_transfer_suspension
    handle_transfer_termination
Answers-serve_transfer h r (transfer_request body) = search transfer_rules depth 40 fits 9000
Answers-serve_transfer h r (transfer_initiate body) = search transfer_rules depth 40 fits 9000
Answers-serve_transfer h r get_transfer_call = search transfer_rules depth 10
Answers-serve_transfer h r (transfer_start body) = Answers-apply_transition h.cfg r body _ _ started
Answers-serve_transfer h r (transfer_completion body) =
    Answers-apply_transition h.cfg r body _ _ completed
Answers-serve_transfer h r (transfer_suspension body) =
    Answers-apply_transition h.cfg r body _ _ suspended
Answers-serve_transfer h r (transfer_termination body) =
    Answers-apply_transition h.cfg r body _ _ terminated

-- Served in any environment, with any body and whichever calls fail, each transfer endpoint writes
-- exactly one answer, after those that were there.
pub serve_transfer-answers_once :
    (h : Connector) (r : Request) (call : TransferCall) (e : Env) (w : World)
    → OneMore w.replies (serve_transfer h r call e w).1.replies
serve_transfer-answers_once h r call e w = (Answers-serve_transfer h r call).at e w
