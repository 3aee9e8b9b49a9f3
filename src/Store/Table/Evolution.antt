-- ===== src/Store/Table/Evolution.antt =====
-- How the row under one key may change while the program runs: rows are created in an initial
-- form, change by the steps of a relation, and are never deleted.
use dataspace_in_a_box.Base.{
  String, ◌≡◌, inl, inr, Bool, true, Option, none, some, List, ◌==◌, eq_iff, Bool-cases,
}
use dataspace_in_a_box.Store.Table.{find, insert, update}
use dataspace_in_a_box.Store.Table.Laws.{find-insert, insert_fresh, Updated, update-some}

-- `starts` says which rows may be created, and `steps` which row may follow which.
pub record Life (Row : Type 0) : Type 1 where
  pub Starts : Row → Type 0
  pub Steps : Row → Row → Type 0
  pub steps_refl : (r : Row) → Steps r r
  pub steps_trans : (r s t : Row) → Steps r s → Steps s t → Steps r t
  pub starts_steps : (r s : Row) → Starts r → Steps r s → Starts s

module _ {Row : Type 0} (life : Life Row) where
  open life use {Starts, Steps, steps_refl, steps_trans, starts_steps}

  abbrev pub RowEvolves : Option Row → Option Row → Type 0
  RowEvolves none none = Unit
  RowEvolves none (some s) = Starts s
  RowEvolves (some r) none = ⊥
  RowEvolves (some r) (some s) = Steps r s

  pub RowEvolves-refl : (o : Option Row) → RowEvolves o o
  RowEvolves-refl none = tt
  RowEvolves-refl (some r) = steps_refl r

  pub RowEvolves-trans : (o p q : Option Row) → RowEvolves o p → RowEvolves p q → RowEvolves o q
  RowEvolves-trans none none q h k = k
  RowEvolves-trans none (some s) none h k = absurd k
  RowEvolves-trans none (some s) (some t) h k = starts_steps s t h k
  RowEvolves-trans (some r) none q h k = absurd h
  RowEvolves-trans (some r) (some s) none h k = absurd k
  RowEvolves-trans (some r) (some s) (some t) h k = steps_trans r s t h k

  module _ (key : Row → String) where
    abbrev pub Evolves : List Row → List Row → Type 0
    Evolves rows rows' = (k : String) → RowEvolves (find key k rows) (find key k rows')

    pub Evolves-refl : (rows : List Row) → Evolves rows rows
    Evolves-refl rows k = RowEvolves-refl (find key k rows)

    pub Evolves-trans : (a b c : List Row) → Evolves a b → Evolves b c → Evolves a c
    Evolves-trans a b c h g k =
        RowEvolves-trans (find key k a) (find key k b) (find key k c) (h k) (g k)

    -- An INSERT of a row in an initial form.
    pub Evolves-insert :
        (r : Row) (rows rows' : List Row)
        → insert key r rows ≡ some rows'
        → Starts r
        → Evolves rows rows'
    Evolves-insert r rows rows' h st k =
        rw (find-insert key k r rows rows' h) (elim (Bool-cases (key r == k)) [
          | inl e ↦ rw e (rw (absent e) st)
          | inr e ↦ rw e (RowEvolves-refl (find key k rows))
        ])
      where
        absent : (key r == k) ≡ true → find key k rows ≡ none
        absent e = cc ((eq_iff (key r) k).0 e, insert_fresh key r rows rows' h)

    -- An UPDATE whose change is a step wherever its test holds.
    pub Evolves-update :
        (k : String) (test : Row → Bool) (change : Row → Row)
        → ((r : Row) → key (change r) ≡ key r)
        → ((r : Row) → test r ≡ true → Steps r (change r))
        → (rows rows' : List Row) → update key k test change rows ≡ some rows'
        → Evolves rows rows'
    Evolves-update k test change keeps moves rows rows' h j =
        rw (u.after j) (elim (Bool-cases (k == j)) [
          | inl e ↦ rw e (rw (present e) (moves u.row u.passed))
          | inr e ↦ rw e (RowEvolves-refl (find key j rows))
        ])
      where
        u : Updated key k test change rows rows'
        u = update-some key k test change keeps rows rows' h

        present : (k == j) ≡ true → find key j rows ≡ some u.row
        present e = cc ((eq_iff k j).0 e, u.found)
