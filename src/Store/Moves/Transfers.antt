-- ===== src/Store/Moves/Transfers.antt =====
-- The database calls on transfers let the database evolve.
use dataspace_in_a_box.Base.{String, ℕ, ◌≡◌, refl, Bool, true}
use dataspace_in_a_box.Guarantee.{Moves}
use dataspace_in_a_box.Store.Rows.{
  TransferProcess, ConsumerTransfer, transfer_key, consumer_transfer_key,
}
use dataspace_in_a_box.Store.Table.{insert}
use dataspace_in_a_box.Store.Table.Evolution.{Evolves-insert}
use dataspace_in_a_box.Store.Evolution.{
  StoreEvolves-refl, change_transfer_processes, change_consumer_transfer_processes, transfer_life,
  consumer_transfer_life,
}
use dataspace_in_a_box.Transfer.State as TransferStates
use dataspace_in_a_box.Transfer.State.{TransferState}
use dataspace_in_a_box.Store.Transfers.{
  select_transfer, insert_transfer, update_transfer_state, select_consumer_transfer,
  insert_consumer_transfer, update_consumer_transfer,
}
use dataspace_in_a_box.Store.Moves.{inserted_evolves, transfer_update, consumer_transfer_update}

pub Moves-select_transfer : (pid : String) → Moves (select_transfer pid)
unfolding select_transfer
Moves-select_transfer pid = record { moves_at = StoreEvolves-refl }

pub Moves-insert_transfer :
    (t : TransferProcess) → t.state ≡ TransferStates.requested → Moves (insert_transfer t)
unfolding insert_transfer
Moves-insert_transfer t h = record {
  moves_at = λ s. inserted_evolves s (insert transfer_key t s.transfer_processes) _ λ rows e.
      change_transfer_processes s rows (
        Evolves-insert transfer_life transfer_key t s.transfer_processes rows e
          (rw h TransferStates.here));
}

pub transfer_path :
    (state from to : TransferState)
    → TransferStates.same_state state from ≡ true
    → TransferStates.◌⟶◌ from to
    → TransferStates.◌⟶*◌ state to
transfer_path state from to t m =
    rw ((TransferStates.same_state_iff state from).0 t) (TransferStates.then m TransferStates.here)

pub Moves-update_transfer_state :
    (pid : String) (from to : TransferState) (at : ℕ)
    → TransferStates.◌⟶◌ from to
    → Moves (update_transfer_state pid from to at)
unfolding update_transfer_state
Moves-update_transfer_state pid from to at m = record {
  moves_at =
      transfer_update pid (λ t. TransferStates.same_state t.state from)
        (λ t. record t { state = to; updated_at = at }) (λ r. refl)
        (λ t h. record { path = transfer_path t.state from to h m; terms = refl });
}

pub Moves-select_consumer_transfer : (pid : String) → Moves (select_consumer_transfer pid)
unfolding select_consumer_transfer
Moves-select_consumer_transfer pid = record { moves_at = StoreEvolves-refl }

pub Moves-insert_consumer_transfer :
    (t : ConsumerTransfer) → t.state ≡ TransferStates.requested → Moves (insert_consumer_transfer t)
unfolding insert_consumer_transfer
Moves-insert_consumer_transfer t h = record {
  moves_at = λ s.
      inserted_evolves s (insert consumer_transfer_key t s.consumer_transfer_processes) _ λ rows e.
        change_consumer_transfer_processes s rows (
          Evolves-insert consumer_transfer_life consumer_transfer_key t
            s.consumer_transfer_processes rows e (rw h TransferStates.here));
}

pub Moves-update_consumer_transfer :
    (pid : String) (test : ConsumerTransfer → Bool) (change : ConsumerTransfer → ConsumerTransfer)
    → ((t : ConsumerTransfer) → consumer_transfer_key (change t) ≡ consumer_transfer_key t)
    → ((t : ConsumerTransfer) → test t ≡ true → consumer_transfer_life.Steps t (change t))
    → Moves (update_consumer_transfer pid test change)
unfolding update_consumer_transfer
Moves-update_consumer_transfer pid test change keeps moves = record {
  moves_at = consumer_transfer_update pid test change keeps moves;
}
