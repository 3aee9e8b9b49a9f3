-- ===== src/Store/Table.antt =====
-- One table of the database: its rows in insertion order, and what the SQL statements of
-- internal/store/store.go do to it. The primary key is a text that `key` reads off a row.
pub mod Laws
pub mod Evolution
use mathlib.Core.Option
use dataspace_in_a_box.Base.{String, Bool, Option, none, some, List, [], ◌∷◌, ◌==◌, if◌then◌else◌}

module _ {Row : Type 0} (key : Row → String) where
  -- SELECT ... WHERE key = ?
  unfoldable pub find : String → List Row → Option Row
  find k [] = none
  find k (r ∷ rows) = if key r == k then some r else find k rows

  -- INSERT; `none` is a primary key conflict.
  unfoldable pub append_row : Row → List Row → List Row
  append_row r [] = r ∷ []
  append_row r (x ∷ rows) = x ∷ append_row r rows

  unfoldable pub insert : Row → List Row → Option (List Row)
  unfolding append_row
  insert r rows = elim (find (key r) rows) [ none ↦ some (append_row r rows) | some _ ↦ none ]

  -- UPDATE ... SET change WHERE key = ? AND test; `none` says that no row was affected. The key is
  -- unique, so the statement touches one row at most.
  unfoldable pub update : String → (Row → Bool) → (Row → Row) → List Row → Option (List Row)
  update k test change [] = none
  update k test change (r ∷ rows) =
      let rest = update k test change rows in
      if key r == k
      then if test r then some (change r ∷ rows) else none
      else Option.map (λ rs. r ∷ rs) rest
