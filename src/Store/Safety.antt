-- ===== src/Store/Safety.antt =====
-- The operations of the store as actions: each lets the database evolve.
use dataspace_in_a_box.Base.{String, ℕ, ◌≡◌, refl, Bool, true, false, Option, List}
use dataspace_in_a_box.Action.{Result, ok, err, Act}
use dataspace_in_a_box.Guarantee.{Safe, Safe-pure, Safe-db, Safe-bind}
use dataspace_in_a_box.Store.Rows.{
  Negotiation, ConsumerNegotiation, Agreement, TransferProcess, ConsumerTransfer,
}
use dataspace_in_a_box.Store.Moves.Negotiations.{
  Moves-select_negotiation, Moves-insert_negotiation, Moves-update_state, Moves-update_rerequested,
  Moves-select_consumer_negotiation, Moves-insert_consumer_negotiation, Moves-update_consumer_state,
  Moves-update_consumer_provider_pid, Moves-select_agreement, Moves-insert_agreement,
  Moves-insert_agreement_if_negotiation_agreed,
}
use dataspace_in_a_box.Store.Moves.Transfers.{
  transfer_path, Moves-select_transfer, Moves-insert_transfer, Moves-update_transfer_state,
  Moves-select_consumer_transfer, Moves-insert_consumer_transfer, Moves-update_consumer_transfer,
}
use dataspace_in_a_box.Negotiation.State as NegotiationStates
use dataspace_in_a_box.Negotiation.State.{NegotiationState}
use dataspace_in_a_box.Transfer.State as TransferStates
use dataspace_in_a_box.Transfer.State.{TransferState}
use dataspace_in_a_box.Store.Negotiations.{
  get, create, explain_no_update, conclude, set_state, set_rerequested, get_consumer,
  create_consumer, explain_no_consumer_update, set_consumer_state, set_consumer_provider_pid,
}
use dataspace_in_a_box.Store.Agreements.{
  get_agreement, create_agreement, create_agreement_if_negotiation_agreed,
}
use dataspace_in_a_box.Store.Transfers.{
  get_transfer, create_transfer, explain_no_transfer_update, set_transfer_state,
  get_consumer_transfer, create_consumer_transfer, explain_no_consumer_transfer_update,
  set_consumer_transfer_state, set_consumer_transfer_provider_pid,
  set_consumer_transfer_expected_bytes, record_consumer_transfer_outcome,
}

pub Safe-conclude :
    (changed : Result Bool) (explain : Act (Result (Unit {0})))
    → Safe explain
    → Safe (conclude changed explain)
unfolding conclude
Safe-conclude (err x) explain h = Safe-pure _
Safe-conclude (ok true) explain h = Safe-pure _
Safe-conclude (ok false) explain h = h

pub Safe-get : (pid : String) → Safe (get pid)
unfolding get
Safe-get pid = Safe-db _ (Moves-select_negotiation pid)

pub Safe-create : (n : Negotiation) → n.state ≡ NegotiationStates.requested → Safe (create n)
unfolding create
Safe-create n h = Safe-db _ (Moves-insert_negotiation n h)

Safe-explain_no_update : (pid : String) → Safe (explain_no_update pid)
unfolding explain_no_update
Safe-explain_no_update pid = Safe-bind _ _ (Safe-get pid) (λ found. Safe-pure _)

pub Safe-set_state :
    (pid : String) (from to : NegotiationState) (at : ℕ)
    → NegotiationStates.◌⟶◌ from to
    → Safe (set_state pid from to at)
unfolding set_state
Safe-set_state pid from to at m =
    Safe-bind _ _ (Safe-db _ (Moves-update_state pid from to at m))
      (λ changed. Safe-conclude changed _ (Safe-explain_no_update pid))

pub Safe-set_rerequested : (pid : String) → Safe (set_rerequested pid)
unfolding set_rerequested
Safe-set_rerequested pid =
    Safe-bind _ _ (Safe-db _ (Moves-update_rerequested pid))
      (λ changed. Safe-conclude changed _ (Safe-explain_no_update pid))

pub Safe-get_consumer : (pid : String) → Safe (get_consumer pid)
unfolding get_consumer
Safe-get_consumer pid = Safe-db _ (Moves-select_consumer_negotiation pid)

pub Safe-create_consumer :
    (n : ConsumerNegotiation) → n.state ≡ NegotiationStates.requested → Safe (create_consumer n)
unfolding create_consumer
Safe-create_consumer n h = Safe-db _ (Moves-insert_consumer_negotiation n h)

Safe-explain_no_consumer_update : (pid : String) → Safe (explain_no_consumer_update pid)
unfolding explain_no_consumer_update
Safe-explain_no_consumer_update pid = Safe-bind _ _ (Safe-get_consumer pid) (λ found. Safe-pure _)

pub Safe-set_consumer_state :
    (pid : String) (from to : NegotiationState) (at : ℕ)
    → NegotiationStates.◌⟶◌ from to
    → Safe (set_consumer_state pid from to at)
unfolding set_consumer_state
Safe-set_consumer_state pid from to at m =
    Safe-bind _ _ (Safe-db _ (Moves-update_consumer_state pid from to at m))
      (λ changed. Safe-conclude changed _ (Safe-explain_no_consumer_update pid))

pub Safe-set_consumer_provider_pid :
    (pid provider_pid : String) (at : ℕ) → Safe (set_consumer_provider_pid pid provider_pid at)
unfolding set_consumer_provider_pid
Safe-set_consumer_provider_pid pid provider_pid at =
    Safe-bind _ _ (Safe-db _ (Moves-update_consumer_provider_pid pid provider_pid at))
      (λ changed. Safe-conclude changed _ (Safe-pure _))

pub Safe-get_agreement : (id : String) → Safe (get_agreement id)
unfolding get_agreement
Safe-get_agreement id = Safe-db _ (Moves-select_agreement id)

pub Safe-create_agreement : (a : Agreement) → Safe (create_agreement a)
unfolding create_agreement
Safe-create_agreement a = Safe-db _ (Moves-insert_agreement a)

pub Safe-create_agreement_if_negotiation_agreed :
    (pid : String) (allowed : List NegotiationState) (a : Agreement)
    → Safe (create_agreement_if_negotiation_agreed pid allowed a)
unfolding create_agreement_if_negotiation_agreed
Safe-create_agreement_if_negotiation_agreed pid allowed a =
    Safe-db _ (Moves-insert_agreement_if_negotiation_agreed pid allowed a)

pub Safe-get_transfer : (pid : String) → Safe (get_transfer pid)
unfolding get_transfer
Safe-get_transfer pid = Safe-db _ (Moves-select_transfer pid)

pub Safe-create_transfer :
    (t : TransferProcess) → t.state ≡ TransferStates.requested → Safe (create_transfer t)
unfolding create_transfer
Safe-create_transfer t h = Safe-db _ (Moves-insert_transfer t h)

Safe-explain_no_transfer_update : (pid : String) → Safe (explain_no_transfer_update pid)
unfolding explain_no_transfer_update
Safe-explain_no_transfer_update pid = Safe-bind _ _ (Safe-get_transfer pid) (λ found. Safe-pure _)

pub Safe-set_transfer_state :
    (pid : String) (from to : TransferState) (at : ℕ)
    → TransferStates.◌⟶◌ from to
    → Safe (set_transfer_state pid from to at)
unfolding set_transfer_state
Safe-set_transfer_state pid from to at m =
    Safe-bind _ _ (Safe-db _ (Moves-update_transfer_state pid from to at m))
      (λ changed. Safe-conclude changed _ (Safe-explain_no_transfer_update pid))

pub Safe-get_consumer_transfer : (pid : String) → Safe (get_consumer_transfer pid)
unfolding get_consumer_transfer
Safe-get_consumer_transfer pid = Safe-db _ (Moves-select_consumer_transfer pid)

pub Safe-create_consumer_transfer :
    (t : ConsumerTransfer) → t.state ≡ TransferStates.requested → Safe (create_consumer_transfer t)
unfolding create_consumer_transfer
Safe-create_consumer_transfer t h = Safe-db _ (Moves-insert_consumer_transfer t h)

Safe-explain_no_consumer_transfer_update :
    (pid : String) → Safe (explain_no_consumer_transfer_update pid)
unfolding explain_no_consumer_transfer_update
Safe-explain_no_consumer_transfer_update pid =
    Safe-bind _ _ (Safe-get_consumer_transfer pid) (λ found. Safe-pure _)

pub Safe-set_consumer_transfer_state :
    (pid : String) (from to : TransferState) (at : ℕ)
    → TransferStates.◌⟶◌ from to
    → Safe (set_consumer_transfer_state pid from to at)
unfolding set_consumer_transfer_state
Safe-set_consumer_transfer_state pid from to at m =
    Safe-bind _ _
      (Safe-db _ (
        Moves-update_consumer_transfer pid _ _ (λ t. refl)
          (λ t h. record { path = transfer_path t.state from to h m; terms = refl })))
      (λ changed. Safe-conclude changed _ (Safe-explain_no_consumer_transfer_update pid))

pub Safe-set_consumer_transfer_provider_pid :
    (pid provider_pid : String) (at : ℕ)
    → Safe (set_consumer_transfer_provider_pid pid provider_pid at)
unfolding set_consumer_transfer_provider_pid
Safe-set_consumer_transfer_provider_pid pid provider_pid at =
    Safe-bind _ _
      (Safe-db _ (
        Moves-update_consumer_transfer pid _ _ (λ t. refl)
          (λ t h. record { path = TransferStates.here; terms = refl })))
      (λ changed. Safe-conclude changed _ (Safe-pure _))

pub Safe-set_consumer_transfer_expected_bytes :
    (pid : String) (expected : ℕ) → Safe (set_consumer_transfer_expected_bytes pid expected)
unfolding set_consumer_transfer_expected_bytes
Safe-set_consumer_transfer_expected_bytes pid expected =
    Safe-bind _ _
      (Safe-db _ (
        Moves-update_consumer_transfer pid _ _ (λ t. refl)
          (λ t h. record { path = TransferStates.here; terms = refl })))
      (λ changed. Safe-conclude changed _ (Safe-pure _))

pub Safe-record_consumer_transfer_outcome :
    (pid : String) (received : ℕ) (path : String) (completed_at : Option ℕ) (failure : String)
    → Safe (record_consumer_transfer_outcome pid received path completed_at failure)
unfolding record_consumer_transfer_outcome
Safe-record_consumer_transfer_outcome pid received path completed_at failure =
    Safe-bind _ _
      (Safe-db _ (
        Moves-update_consumer_transfer pid _ _ (λ t. refl)
          (λ t h. record { path = TransferStates.here; terms = refl })))
      (λ changed. Safe-conclude changed _ (Safe-pure _))
