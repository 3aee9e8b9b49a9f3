-- ===== src/Store/Transfers.antt =====
-- The operations of internal/store/store.go on `transfer_processes` and
-- `consumer_transfer_processes`.
use dataspace_in_a_box.Base.{ℕ, String, Bool, true, Option}
use dataspace_in_a_box.Action.{Result, ok, err, not_found, Act, pure, db, ◌>>=◌}
use dataspace_in_a_box.Transfer.State.{TransferState, same_state}
use dataspace_in_a_box.Store.Table.{find, insert, update}
use dataspace_in_a_box.Store.Rows.{
  TransferProcess, ConsumerTransfer, Store, transfer_key, consumer_transfer_key,
}
use dataspace_in_a_box.Store.Negotiations.{inserted, affected, explanation, conclude}

unfoldable pub select_transfer : String → Store → Result (Option TransferProcess) × Store
select_transfer pid s = (ok (find transfer_key pid s.transfer_processes), s)

unfoldable pub insert_transfer : TransferProcess → Store → Result (Unit {0}) × Store
insert_transfer t s =
    inserted s (insert transfer_key t s.transfer_processes)
      (λ rows. record s { transfer_processes = rows })

unfoldable pub update_transfer_state :
    String → TransferState → TransferState → ℕ → Store → Result Bool × Store
update_transfer_state pid from to at s =
    affected s
      (update transfer_key pid (λ t. same_state t.state from)
        (λ t. record t { state = to; updated_at = at }) s.transfer_processes)
      (λ rows. record s { transfer_processes = rows })

unfoldable pub get_transfer : String → Act (Result (Option TransferProcess))
get_transfer pid = db (select_transfer pid)

unfoldable pub create_transfer : TransferProcess → Act (Result (Unit {0}))
create_transfer t = db (insert_transfer t)

unfoldable pub explain_no_transfer_update : String → Act (Result (Unit {0}))
explain_no_transfer_update pid = do found ← get_transfer pid; pure (explanation found)

unfoldable pub set_transfer_state :
    String → TransferState → TransferState → ℕ → Act (Result (Unit {0}))
set_transfer_state pid from to at = do
  changed ← db (update_transfer_state pid from to at)
  conclude changed (explain_no_transfer_update pid)

unfoldable pub select_consumer_transfer : String → Store → Result (Option ConsumerTransfer) × Store
select_consumer_transfer pid s =
    (ok (find consumer_transfer_key pid s.consumer_transfer_processes), s)

unfoldable pub insert_consumer_transfer : ConsumerTransfer → Store → Result (Unit {0}) × Store
insert_consumer_transfer t s =
    inserted s (insert consumer_transfer_key t s.consumer_transfer_processes)
      (λ rows. record s { consumer_transfer_processes = rows })

-- An UPDATE of the consumer's transfers, for what it tests and what it sets.
unfoldable pub update_consumer_transfer :
    String
    → (ConsumerTransfer → Bool)
    → (ConsumerTransfer → ConsumerTransfer)
    → Store
    → Result Bool × Store
update_consumer_transfer pid test change s =
    affected s (update consumer_transfer_key pid test change s.consumer_transfer_processes)
      (λ rows. record s { consumer_transfer_processes = rows })

unfoldable pub get_consumer_transfer : String → Act (Result (Option ConsumerTransfer))
get_consumer_transfer pid = db (select_consumer_transfer pid)

unfoldable pub create_consumer_transfer : ConsumerTransfer → Act (Result (Unit {0}))
create_consumer_transfer t = db (insert_consumer_transfer t)

unfoldable pub explain_no_consumer_transfer_update : String → Act (Result (Unit {0}))
explain_no_consumer_transfer_update pid = do
  found ← get_consumer_transfer pid
  pure (explanation found)

unfoldable pub set_consumer_transfer_state :
    String → TransferState → TransferState → ℕ → Act (Result (Unit {0}))
set_consumer_transfer_state pid from to at = do
  changed ← db (
      update_consumer_transfer pid (λ t. same_state t.state from)
        (λ t. record t { state = to; updated_at = at }))
  conclude changed (explain_no_consumer_transfer_update pid)

unfoldable pub set_consumer_transfer_provider_pid : String → String → ℕ → Act (Result (Unit {0}))
set_consumer_transfer_provider_pid pid provider_pid at = do
  changed ← db (
      update_consumer_transfer pid (λ t. true)
        (λ t. record t { provider_pid = provider_pid; updated_at = at }))
  conclude changed (pure (err not_found))

-- A missing row is no error for these two.
unfoldable pub set_consumer_transfer_expected_bytes : String → ℕ → Act (Result (Unit {0}))
set_consumer_transfer_expected_bytes pid expected = do
  changed ←
      db (update_consumer_transfer pid (λ t. true) (λ t. record t { expected_bytes = expected }))
  conclude changed (pure (ok tt))

unfoldable pub record_consumer_transfer_outcome :
    String → ℕ → String → Option ℕ → String → Act (Result (Unit {0}))
record_consumer_transfer_outcome pid received path completed_at failure = do
  changed ← db (
      update_consumer_transfer pid (λ t. true)
        (λ t. record t {
          received_bytes = received;
          data_path = path;
          data_completed_at = completed_at;
          data_error = failure;
        }))
  conclude changed (pure (ok tt))
