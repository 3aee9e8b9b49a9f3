-- ===== src/Tests/Stores.antt =====
-- Concrete uses of the theorems on the store.
use dataspace_in_a_box.Base.{◌≡◌, refl, true, false, some, List, [], ◌∷◌}
use dataspace_in_a_box.Store.Table.{find, insert, append_row, update}
use dataspace_in_a_box.Store.Table.Laws.{Updated}
use dataspace_in_a_box.Store.Rows.{empty_store, negotiation_key}
use dataspace_in_a_box.Action.{ok, pure, db, continue, ◌>>=◌}
use dataspace_in_a_box.Negotiation.State.{requested, offered, accepted, same_state}
use dataspace_in_a_box.Store.Negotiations.{
  inserted, affected, insert_negotiation, update_state, update_rerequested, conclude, set_state,
}
use dataspace_in_a_box.Store.Abstract.{
  Statement, new_negotiation, move_negotiation, execute, execute_all, promise_all, succeeded,
  affects,
}
use dataspace_in_a_box.Store.Abstract.Refinement.{view, viewed_all, execute_all-refines}
use dataspace_in_a_box.Store.Swap.{set_state-swaps, update_rerequested-once}
use dataspace_in_a_box.Store.Evolution.{StoreEvolves-refl}
use dataspace_in_a_box.Store.Roster.{record_all, record_all-newest}
use dataspace_in_a_box.Tests.Fixtures.{quiet, quiet-Undisturbed, row, store_at, world}

set_state-swaps_example :
    Updated negotiation_key "p1"
      (λ n. same_state n.state offered)
      (λ n. record n { state = accepted; updated_at = 9 })
      (store_at offered).negotiations
      (set_state "p1" offered accepted 9 quiet (world (store_at offered))).1.store.negotiations
unfolding set_state db ◌>>=◌ continue update_state affected update conclude pure
set_state-swaps_example =
    set_state-swaps "p1" offered accepted 9 quiet (world (store_at offered)) refl

update_rerequested-once_example :
    (update_rerequested "p1" (update_rerequested "p1" (store_at requested)).1).0 ≡ ok false
unfolding update_rerequested affected update
update_rerequested-once_example =
    update_rerequested-once "p1" (store_at requested)
      (update_rerequested "p1" (store_at requested)).1 refl (StoreEvolves-refl _)

record_all-newest_example :
    (record_all (4 ∷ 2 ∷ 6 ∷ 5 ∷ []) quiet (world empty_store)).1.store.roster_version ≡ some 6
record_all-newest_example =
    record_all-newest quiet quiet-Undisturbed (4 ∷ 2 ∷ 6 ∷ 5 ∷ []) (world empty_store)

-- A negotiation is made, moved, and made again.
abbrev history : List Statement
history =
    new_negotiation (row requested)
    ∷ move_negotiation "p1" requested offered 7
    ∷ new_negotiation (row requested)
    ∷ []

execute_all-refines_example :
    viewed_all (execute_all history empty_store) ≡ promise_all history (view empty_store)
execute_all-refines_example = execute_all-refines history empty_store (tt, (tt, (tt, tt)))

history_reports : (execute_all history empty_store).0 ≡ true ∷ true ∷ false ∷ []
unfolding execute_all execute succeeded affects insert_negotiation update_state inserted affected
    find insert append_row update
history_reports = refl
