-- ===== src/Store/Moves.antt =====
-- Each database call lets the database evolve: an INSERT of a row in its first state, and an
-- UPDATE whose two states are joined by a move of the protocol.
pub mod Negotiations
pub mod Transfers
use dataspace_in_a_box.Base.{String, ℕ, ◌≡◌, refl, Bool, true, false, not, Option, none, some, List}
use dataspace_in_a_box.Guarantee.{Moves}
use dataspace_in_a_box.Store.Rows.{
  Negotiation, ConsumerNegotiation, Agreement, TransferProcess, ConsumerTransfer, Store,
  negotiation_key, consumer_negotiation_key, agreement_key, transfer_key, consumer_transfer_key,
}
use dataspace_in_a_box.Store.Table.{insert, update}
use dataspace_in_a_box.Store.Table.Evolution.{Evolves-insert, Evolves-update}
use dataspace_in_a_box.Store.Evolution.{
  StoreEvolves, StoreEvolves-refl, change_negotiations, change_consumer_negotiations,
  change_agreements, change_transfer_processes, change_consumer_transfer_processes,
  negotiation_life, consumer_negotiation_life, agreement_life, transfer_life,
  consumer_transfer_life,
}
use dataspace_in_a_box.Negotiation.State as NegotiationStates
use dataspace_in_a_box.Negotiation.State.{NegotiationState}
use dataspace_in_a_box.Transfer.State as TransferStates
use dataspace_in_a_box.Transfer.State.{TransferState}
use dataspace_in_a_box.Store.Negotiations.{
  inserted, affected, select_negotiation, insert_negotiation, update_state, update_rerequested,
  select_consumer_negotiation, insert_consumer_negotiation, update_consumer_state,
  update_consumer_provider_pid,
}
use dataspace_in_a_box.Store.Agreements.{
  select_agreement, insert_agreement, issued, insert_if_allowed, insert_if_agreed,
  insert_agreement_if_negotiation_agreed,
}
use dataspace_in_a_box.Store.Transfers.{
  select_transfer, insert_transfer, update_transfer_state, select_consumer_transfer,
  insert_consumer_transfer, update_consumer_transfer,
}

module _ {Row : Type 0} (s : Store) where
  pub inserted_evolves :
      (o : Option (List Row)) (put : List Row → Store)
      → ((rows : List Row) → o ≡ some rows → StoreEvolves s (put rows))
      → StoreEvolves s (inserted s o put).1
  unfolding inserted
  inserted_evolves none put h = StoreEvolves-refl s
  inserted_evolves (some rows) put h = h rows refl

  pub affected_evolves :
      (o : Option (List Row)) (put : List Row → Store)
      → ((rows : List Row) → o ≡ some rows → StoreEvolves s (put rows))
      → StoreEvolves s (affected s o put).1
  unfolding affected
  affected_evolves none put h = StoreEvolves-refl s
  affected_evolves (some rows) put h = h rows refl

pub negotiation_update :
    (pid : String) (test : Negotiation → Bool) (change : Negotiation → Negotiation)
    → ((r : Negotiation) → negotiation_key (change r) ≡ negotiation_key r)
    → ((r : Negotiation) → test r ≡ true → negotiation_life.Steps r (change r))
    → (s : Store)
    → StoreEvolves s
        (affected s
          (update negotiation_key pid test change s.negotiations)
          (λ rows. record s { negotiations = rows })).1
negotiation_update pid test change keeps moves s =
    affected_evolves s (update negotiation_key pid test change s.negotiations) _ λ rows e.
      change_negotiations s rows (
        Evolves-update negotiation_life negotiation_key pid test change keeps moves s.negotiations
          rows e)

pub consumer_negotiation_update :
    (pid : String) (test : ConsumerNegotiation → Bool)
    (change : ConsumerNegotiation → ConsumerNegotiation)
    → ((r : ConsumerNegotiation) → consumer_negotiation_key (change r) ≡ consumer_negotiation_key r)
    → ((r : ConsumerNegotiation) → test r ≡ true → consumer_negotiation_life.Steps r (change r))
    → (s : Store)
    → StoreEvolves s
        (affected s
          (update consumer_negotiation_key pid test change s.consumer_negotiations)
          (λ rows. record s { consumer_negotiations = rows })).1
consumer_negotiation_update pid test change keeps moves s =
    affected_evolves s (update consumer_negotiation_key pid test change s.consumer_negotiations) _
      λ rows e. change_consumer_negotiations s rows (
        Evolves-update consumer_negotiation_life consumer_negotiation_key pid test change keeps
          moves s.consumer_negotiations rows e)

pub transfer_update :
    (pid : String) (test : TransferProcess → Bool) (change : TransferProcess → TransferProcess)
    → ((r : TransferProcess) → transfer_key (change r) ≡ transfer_key r)
    → ((r : TransferProcess) → test r ≡ true → transfer_life.Steps r (change r))
    → (s : Store)
    → StoreEvolves s
        (affected s
          (update transfer_key pid test change s.transfer_processes)
          (λ rows. record s { transfer_processes = rows })).1
transfer_update pid test change keeps moves s =
    affected_evolves s (update transfer_key pid test change s.transfer_processes) _ λ rows e.
      change_transfer_processes s rows (
        Evolves-update transfer_life transfer_key pid test change keeps moves s.transfer_processes
          rows e)

pub consumer_transfer_update :
    (pid : String) (test : ConsumerTransfer → Bool) (change : ConsumerTransfer → ConsumerTransfer)
    → ((r : ConsumerTransfer) → consumer_transfer_key (change r) ≡ consumer_transfer_key r)
    → ((r : ConsumerTransfer) → test r ≡ true → consumer_transfer_life.Steps r (change r))
    → (s : Store)
    → StoreEvolves s
        (affected s
          (update consumer_transfer_key pid test change s.consumer_transfer_processes)
          (λ rows. record s { consumer_transfer_processes = rows })).1
consumer_transfer_update pid test change keeps moves s =
    affected_evolves s (update consumer_transfer_key pid test change s.consumer_transfer_processes)
      _
      λ rows e. change_consumer_transfer_processes s rows (
        Evolves-update consumer_transfer_life consumer_transfer_key pid test change keeps moves
          s.consumer_transfer_processes rows e)
