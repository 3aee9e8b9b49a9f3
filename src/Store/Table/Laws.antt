-- ===== src/Store/Table/Laws.antt =====
-- What a SELECT answers after an INSERT and after an UPDATE.
use mathlib.Core.Path.{subst}
use dataspace_in_a_box.Base.{
  String, ◌≡◌, refl, ◌⊎◌, inl, inr, Bool, true, false, none, some, List, [], ◌∷◌, ◌==◌, eq_iff,
  arith, if◌then◌else◌,
}
use dataspace_in_a_box.Store.Table.{find, append_row, insert, update}

module _ {Row : Type 0} (key : Row → String) where
  find-append_row :
      (k : String) (r : Row) (rows : List Row)
      → find key (key r) rows ≡ none
      → find key k (append_row key r rows) ≡ (if key r == k then some r else find key k rows)
  unfolding find append_row
  find-append_row k r [] h = refl
  find-append_row k r (x ∷ rows) h =
      ground (
        arith,
        find-append_row k r rows,
        eq_iff (key x) k,
        eq_iff (key r) k,
        eq_iff (key x) (key r),
      )

  pub find-insert :
      (k : String) (r : Row) (rows rows' : List Row)
      → insert key r rows ≡ some rows'
      → find key k rows' ≡ (if key r == k then some r else find key k rows)
  unfolding insert
  find-insert k r rows rows' h = ground (arith, find-append_row k r rows)

  pub insert_fresh :
      (r : Row) (rows rows' : List Row)
      → insert key r rows ≡ some rows'
      → find key (key r) rows ≡ none
  unfolding insert
  insert_fresh r rows rows' h = ground arith

  pub insert_free :
      (r : Row) (rows : List Row)
      → find key (key r) rows ≡ none
      → (rows' : List Row) × (insert key r rows ≡ some rows')
  unfolding insert
  insert_free r rows h = (append_row key r rows, rw (h, insert) refl)

  pub insert_taken :
      (r m : Row) (rows : List Row) → find key (key r) rows ≡ some m → insert key r rows ≡ none
  unfolding insert
  insert_taken r m rows h = rw (h, insert) refl

  -- A successful UPDATE found its row, the row passed the test, and no other row changed.
  pub record Updated (k : String) (test : Row → Bool) (change : Row → Row) (rows rows' : List Row)
      : Type 0 where
    pub row : Row
    pub found : find key k rows ≡ some row
    pub passed : test row ≡ true
    pub after :
        (j : String) → find key j rows' ≡ (if k == j then some (change row) else find key j rows)

  module _ (k : String) (test : Row → Bool) (change : Row → Row)
      (keeps : (r : Row) → key (change r) ≡ key r) where
    Updated-here :
        (r : Row) (rows : List Row)
        → (key r == k) ≡ true
        → test r ≡ true
        → Updated k test change (r ∷ rows) (change r ∷ rows)
    unfolding find
    Updated-here r rows e t = record {
      row = r;
      found = ground arith;
      passed = t;
      after = λ j. ground (arith, keeps r, eq_iff (key r) k, eq_iff (key r) j, eq_iff k j);
    }

    Updated-later :
        (r : Row) (rows rows' : List Row)
        → (key r == k) ≡ false
        → Updated k test change rows rows'
        → Updated k test change (r ∷ rows) (r ∷ rows')
    unfolding find
    Updated-later r rows rows' e u = record {
      row = u.row;
      found = ground (arith, u.found);
      passed = u.passed;
      after = λ j. ground (arith, u.after j, eq_iff (key r) k, eq_iff (key r) j, eq_iff k j);
    }

    update_cons :
        (r : Row) (rows rows' : List Row)
        → update key k test change (r ∷ rows) ≡ some rows'
        → ((key r == k) ≡ true) × (test r ≡ true) × (change r ∷ rows ≡ rows')
          ⊎ ((rest : List Row) × (update key k test change rows ≡ some rest)
              × ((key r == k) ≡ false)
              × (r ∷ rest ≡ rows'))
    unfolding update
    update_cons r rows rows' h = ground arith

    pub update-some :
        (rows rows' : List Row)
        → update key k test change rows ≡ some rows'
        → Updated k test change rows rows'
    unfolding update
    update-some [] rows' h = absurd (ground arith)
    update-some (r ∷ rows) rows' h = elim (update_cons r rows rows' h) [
      | inl (e, t, p) ↦ subst (Updated k test change (r ∷ rows)) p (Updated-here r rows e t)
      | inr (rest, q, e, p) ↦
          subst (Updated k test change (r ∷ rows)) p
            (Updated-later r rows rest e (update-some rows rest q))
    ]

  -- An UPDATE that affects no row met no row with the key, or one that fails the test.
  pub update-none :
      (k : String) (test : Row → Bool) (change : Row → Row) (rows : List Row)
      → update key k test change rows ≡ none
      → (find key k rows ≡ none) ⊎ ((r : Row) × (find key k rows ≡ some r) × (test r ≡ false))
  unfolding find update
  update-none k test change [] h = inl refl
  update-none k test change (r ∷ rows) h = ground (arith, update-none k test change rows)
