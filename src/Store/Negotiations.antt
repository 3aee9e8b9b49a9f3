-- ===== src/Store/Negotiations.antt =====
-- The operations of internal/store/store.go on `negotiations` and `consumer_negotiations`.
-- A function that ends in `_row` or `_rows` is one SQL statement on the whole database; the
-- operation of the source's name makes the calls.
use dataspace_in_a_box.Base.{ℕ, String, Bool, true, false, not, Option, none, some, List}
use dataspace_in_a_box.Action.{
  not_found, state_changed, failed, Result, ok, err, Act, pure, db, ◌>>=◌,
}
use dataspace_in_a_box.Negotiation.State.{NegotiationState, same_state}
use dataspace_in_a_box.Store.Table.{find, insert, update}
use dataspace_in_a_box.Store.Rows.{
  Negotiation, ConsumerNegotiation, Store, negotiation_key, consumer_negotiation_key,
}

-- What an INSERT or an UPDATE answers, and the database after it: `rows` is what it makes of its
-- table, if it succeeds. `ok false` says that the UPDATE affected no row.
module _ {Row : Type 0} (s : Store) where
  unfoldable pub inserted : Option (List Row) → (List Row → Store) → Result (Unit {0}) × Store
  inserted none put = (err failed, s)
  inserted (some rows) put = (ok tt, put rows)

  unfoldable pub affected : Option (List Row) → (List Row → Store) → Result Bool × Store
  affected none put = (ok false, s)
  affected (some rows) put = (ok true, put rows)

-- A SELECT by primary key.
unfoldable pub select_negotiation : String → Store → Result (Option Negotiation) × Store
select_negotiation pid s = (ok (find negotiation_key pid s.negotiations), s)

unfoldable pub insert_negotiation : Negotiation → Store → Result (Unit {0}) × Store
insert_negotiation n s =
    inserted s (insert negotiation_key n s.negotiations) (λ rows. record s { negotiations = rows })

unfoldable pub update_state :
    String → NegotiationState → NegotiationState → ℕ → Store → Result Bool × Store
update_state pid from to at s =
    affected s
      (update negotiation_key pid (λ n. same_state n.state from)
        (λ n. record n { state = to; updated_at = at }) s.negotiations)
      (λ rows. record s { negotiations = rows })

unfoldable pub update_rerequested : String → Store → Result Bool × Store
update_rerequested pid s =
    affected s
      (update negotiation_key pid (λ n. not n.rerequested) (λ n. record n { rerequested = true })
        s.negotiations)
      (λ rows. record s { negotiations = rows })

unfoldable pub get : String → Act (Result (Option Negotiation))
get pid = db (select_negotiation pid)

unfoldable pub create : Negotiation → Act (Result (Unit {0}))
create n = db (insert_negotiation n)

-- The row is gone, or it no longer holds the value that the UPDATE wanted.
unfoldable pub explanation : {Row : Type 0} → Result (Option Row) → Result (Unit {0})
explanation (err x) = err failed
explanation (ok none) = err not_found
explanation (ok (some n)) = err state_changed

unfoldable pub explain_no_update : String → Act (Result (Unit {0}))
explain_no_update pid = do found ← get pid; pure (explanation found)

-- What a conditional UPDATE reports, given how it explains that no row was affected.
unfoldable pub conclude : Result Bool → Act (Result (Unit {0})) → Act (Result (Unit {0}))
conclude (err x) explain = pure (err x)
conclude (ok true) explain = pure (ok tt)
conclude (ok false) explain = explain

unfoldable pub set_state :
    String → NegotiationState → NegotiationState → ℕ → Act (Result (Unit {0}))
set_state pid from to at = do
  changed ← db (update_state pid from to at)
  conclude changed (explain_no_update pid)

unfoldable pub set_rerequested : String → Act (Result (Unit {0}))
set_rerequested pid = do
  changed ← db (update_rerequested pid)
  conclude changed (explain_no_update pid)

unfoldable pub select_consumer_negotiation :
    String → Store → Result (Option ConsumerNegotiation) × Store
select_consumer_negotiation pid s =
    (ok (find consumer_negotiation_key pid s.consumer_negotiations), s)

unfoldable pub insert_consumer_negotiation : ConsumerNegotiation → Store → Result (Unit {0}) × Store
insert_consumer_negotiation n s =
    inserted s (insert consumer_negotiation_key n s.consumer_negotiations)
      (λ rows. record s { consumer_negotiations = rows })

unfoldable pub update_consumer_state :
    String → NegotiationState → NegotiationState → ℕ → Store → Result Bool × Store
update_consumer_state pid from to at s =
    affected s
      (update consumer_negotiation_key pid (λ n. same_state n.state from)
        (λ n. record n { state = to; updated_at = at }) s.consumer_negotiations)
      (λ rows. record s { consumer_negotiations = rows })

-- Unconditional: it tests nothing but the key.
unfoldable pub update_consumer_provider_pid : String → String → ℕ → Store → Result Bool × Store
update_consumer_provider_pid pid provider_pid at s =
    affected s
      (update consumer_negotiation_key pid (λ n. true)
        (λ n. record n { provider_pid = provider_pid; updated_at = at }) s.consumer_negotiations)
      (λ rows. record s { consumer_negotiations = rows })

unfoldable pub get_consumer : String → Act (Result (Option ConsumerNegotiation))
get_consumer pid = db (select_consumer_negotiation pid)

unfoldable pub create_consumer : ConsumerNegotiation → Act (Result (Unit {0}))
create_consumer n = db (insert_consumer_negotiation n)

unfoldable pub explain_no_consumer_update : String → Act (Result (Unit {0}))
explain_no_consumer_update pid = do found ← get_consumer pid; pure (explanation found)

unfoldable pub set_consumer_state :
    String → NegotiationState → NegotiationState → ℕ → Act (Result (Unit {0}))
set_consumer_state pid from to at = do
  changed ← db (update_consumer_state pid from to at)
  conclude changed (explain_no_consumer_update pid)

unfoldable pub set_consumer_provider_pid : String → String → ℕ → Act (Result (Unit {0}))
set_consumer_provider_pid pid provider_pid at = do
  changed ← db (update_consumer_provider_pid pid provider_pid at)
  conclude changed (pure (err not_found))
