-- ===== src/Store/Abstract/Refinement.antt =====
-- The store implements its abstract view.
use mathlib.Core.Path.{fun_ext}
use dataspace_in_a_box.Base.{
  String, ◌≡◌, refl, ap, ◌∙◌, inl, inr, Bool, true, false, Option, none, some, List, [], ◌∷◌, ◌==◌,
  All, Option-cases, Bool-cases, if◌then◌else◌,
}
use dataspace_in_a_box.Negotiation.State.{NegotiationState}
use dataspace_in_a_box.Store.Table.{find, insert, update}
use dataspace_in_a_box.Store.Table.Laws.{
  find-insert, insert_taken, insert_free, update-some, update-none,
}
use dataspace_in_a_box.Store.Rows.{
  Negotiation, Agreement, Store, negotiation_key, consumer_negotiation_key, agreement_key,
  transfer_key, consumer_transfer_key,
}
use dataspace_in_a_box.Store.Negotiations.{
  inserted, affected, insert_negotiation, update_state, update_rerequested,
  insert_consumer_negotiation, update_consumer_state, update_consumer_provider_pid,
}
use dataspace_in_a_box.Store.Agreements.{
  insert_agreement, insert_agreement_if_negotiation_agreed, insert_if_agreed, insert_if_allowed,
  issued, is_one_of, upsert_roster_version,
}
use dataspace_in_a_box.Store.Transfers.{
  insert_transfer, update_transfer_state, insert_consumer_transfer, update_consumer_transfer,
}
use dataspace_in_a_box.Store.Abstract.{
  Rows, put, add, swap, Ledger, Statement, new_negotiation, move_negotiation, take_re_request,
  new_consumer_negotiation, move_consumer_negotiation, adopt_provider_pid, new_agreement,
  issue_agreement, new_transfer, move_transfer, new_consumer_transfer, change_consumer_transfer,
  note_roster_version, Keeps, execute_all, promise_all, succeeded, affects, recorded, reported,
  execute, may_issue, within, promise,
}

module _ {Row : Type 0} (key : Row → String) where
  abbrev look : List Row → Rows Row
  look rows = λ k. find key k rows

  look-insert :
      (r : Row) (rows rows' : List Row)
      → insert key r rows ≡ some rows'
      → look rows' ≡ put (key r) r (look rows)
  unfolding put
  look-insert r rows rows' h = fun_ext (λ k. find-insert key k r rows rows' h)

  look-update :
      (pid : String) (test : Row → Bool) (change : Row → Row)
      → ((r : Row) → key (change r) ≡ key r)
      → (rows rows' : List Row) (r : Row) → find key pid rows ≡ some r
      → update key pid test change rows ≡ some rows'
      → look rows' ≡ put pid (change r) (look rows)
  unfolding put
  look-update pid test change keeps rows rows' r found h =
      let u = update-some key pid test change keeps rows rows' h in
      fun_ext (λ j. u.after j ∙ ap (λ o. if pid == j then o else find key j rows) (cc (u.found)))

-- The database with its representation forgotten.
unfoldable pub view : Store → Ledger
view s = record {
  negotiations = look negotiation_key s.negotiations;
  consumer_negotiations = look consumer_negotiation_key s.consumer_negotiations;
  agreements = look agreement_key s.agreements;
  transfers = look transfer_key s.transfer_processes;
  consumer_transfers = look consumer_transfer_key s.consumer_transfer_processes;
  roster_version = s.roster_version;
}

abbrev viewed : Bool × Store → Bool × Ledger
viewed (b, s) = (b, view s)

-- One statement on one table of a database, whatever the table is.
module _ {Row : Type 0} (key : Row → String) (rows : List Row) (s : Store) (set : List Row → Store)
    (lift : Rows Row → Ledger) (set_view : (rs : List Row) → view (set rs) ≡ lift (look key rs))
    (same_view : view s ≡ lift (look key rows)) where
  inserted-refines :
      (r : Row)
      → viewed (reported succeeded (inserted s (insert key r rows) set))
        ≡ within (add key r (look key rows)) lift
  unfolding inserted succeeded add
  inserted-refines r = elim (Option-cases (find key (key r) rows)) [
    | inl free ↦
        let (rows', e) = insert_free key r rows free in
        rw e (
          rw (free, add)
            (ap (λ l. (true, l)) (set_view rows' ∙ ap lift (look-insert key r rows rows' e))))
    | inr (m, taken) ↦
        rw (insert_taken key r m rows taken) (rw (taken, add) (ap (λ l. (false, l)) same_view))
  ]

  affected-refines :
      (pid : String) (test : Row → Bool) (change : Row → Row)
      → ((r : Row) → key (change r) ≡ key r)
      → viewed (reported affects (affected s (update key pid test change rows) set))
        ≡ within (swap pid test change (look key rows)) lift
  unfolding affected affects swap
  affected-refines pid test change keeps = elim (Option-cases (update key pid test change rows)) [
    | inl e ↦ elim (update-none key pid test change rows e) [
      | inl missing ↦ rw e (rw (missing, swap) (ap (λ l. (false, l)) same_view))
      | inr (r, found, failed) ↦
          rw e (rw (found, swap) (rw failed (ap (λ l. (false, l)) same_view)))
    ]
    | inr (rows', e) ↦
        let u = update-some key pid test change keeps rows rows' e in
        rw e (
          rw (u.found, swap)
            (rw u.passed (
              ap (λ l. (true, l))
                (set_view rows'
                  ∙ ap lift (look-update key pid test change keeps rows rows' u.row u.found e)))))
  ]

issued-refines :
    (state : NegotiationState) (a : Agreement) (s : Store)
    → viewed (reported recorded (issued state s (insert agreement_key a s.agreements)))
      ≡ within
          (add agreement_key a (look agreement_key s.agreements))
          (λ m. record (view s) { agreements = m })
unfolding issued recorded add view
issued-refines state a s = elim (Option-cases (find agreement_key (agreement_key a) s.agreements)) [
  | inl free ↦
      let (rows', e) = insert_free agreement_key a s.agreements free in
      rw e (
        rw (free, add)
          (ap (λ m. (true, record (view s) { agreements = m }))
            (look-insert agreement_key a s.agreements rows' e)))
  | inr (m, taken) ↦ rw (insert_taken agreement_key a m s.agreements taken) (rw (taken, add) refl)
]

issue-refines :
    (allowed : List NegotiationState) (a : Agreement) (s : Store) (n : Option Negotiation)
    → viewed (reported recorded (insert_if_agreed n allowed a s)) ≡ (
        if may_issue n allowed
        then within
            (add agreement_key a (look agreement_key s.agreements))
            (λ m. record (view s) { agreements = m })
        else (false, view s))
unfolding insert_if_agreed may_issue
issue-refines allowed a s none = unfold recorded in refl
issue-refines allowed a s (some n) = elim (Bool-cases (is_one_of n.state allowed)) [
  | inr e ↦ rw e (unfold insert_if_allowed recorded in refl)
  | inl e ↦ rw e (unfold insert_if_allowed in issued-refines n.state a s)
]

pub execute-refines :
    (st : Statement) (s : Store) → Keeps st → viewed (execute st s) ≡ promise st (view s)
unfolding execute promise view
execute-refines (new_negotiation n) s k =
    unfold insert_negotiation in
    inserted-refines negotiation_key s.negotiations s (λ rows. record s { negotiations = rows })
      (λ m. record (view s) { negotiations = m }) (λ rs. refl) refl n
execute-refines (move_negotiation pid from to at) s k =
    unfold update_state in
    affected-refines negotiation_key s.negotiations s (λ rows. record s { negotiations = rows })
      (λ m. record (view s) { negotiations = m }) (λ rs. refl) refl pid _ _ (λ r. refl)
execute-refines (take_re_request pid) s k =
    unfold update_rerequested in
    affected-refines negotiation_key s.negotiations s (λ rows. record s { negotiations = rows })
      (λ m. record (view s) { negotiations = m }) (λ rs. refl) refl pid _ _ (λ r. refl)
execute-refines (new_consumer_negotiation n) s k =
    unfold insert_consumer_negotiation in
    inserted-refines consumer_negotiation_key s.consumer_negotiations s
      (λ rows. record s { consumer_negotiations = rows })
      (λ m. record (view s) { consumer_negotiations = m }) (λ rs. refl) refl n
execute-refines (move_consumer_negotiation pid from to at) s k =
    unfold update_consumer_state in
    affected-refines consumer_negotiation_key s.consumer_negotiations s
      (λ rows. record s { consumer_negotiations = rows })
      (λ m. record (view s) { consumer_negotiations = m }) (λ rs. refl) refl pid _ _ (λ r. refl)
execute-refines (adopt_provider_pid pid provider_pid at) s k =
    unfold update_consumer_provider_pid in
    affected-refines consumer_negotiation_key s.consumer_negotiations s
      (λ rows. record s { consumer_negotiations = rows })
      (λ m. record (view s) { consumer_negotiations = m }) (λ rs. refl) refl pid _ _ (λ r. refl)
execute-refines (new_agreement a) s k =
    unfold insert_agreement in
    inserted-refines agreement_key s.agreements s (λ rows. record s { agreements = rows })
      (λ m. record (view s) { agreements = m }) (λ rs. refl) refl a
execute-refines (issue_agreement pid allowed a) s k =
    unfold insert_agreement_if_negotiation_agreed in
    issue-refines allowed a s (find negotiation_key pid s.negotiations)
execute-refines (new_transfer t) s k =
    unfold insert_transfer in
    inserted-refines transfer_key s.transfer_processes s
      (λ rows. record s { transfer_processes = rows }) (λ m. record (view s) { transfers = m })
      (λ rs. refl) refl t
execute-refines (move_transfer pid from to at) s k =
    unfold update_transfer_state in
    affected-refines transfer_key s.transfer_processes s
      (λ rows. record s { transfer_processes = rows }) (λ m. record (view s) { transfers = m })
      (λ rs. refl) refl pid _ _ (λ r. refl)
execute-refines (new_consumer_transfer t) s k =
    unfold insert_consumer_transfer in
    inserted-refines consumer_transfer_key s.consumer_transfer_processes s
      (λ rows. record s { consumer_transfer_processes = rows })
      (λ m. record (view s) { consumer_transfers = m }) (λ rs. refl) refl t
execute-refines (change_consumer_transfer pid test change) s k =
    unfold update_consumer_transfer in
    affected-refines consumer_transfer_key s.consumer_transfer_processes s
      (λ rows. record s { consumer_transfer_processes = rows })
      (λ m. record (view s) { consumer_transfers = m }) (λ rs. refl) refl pid test change k
execute-refines (note_roster_version version) s k = unfold upsert_roster_version succeeded in refl

abbrev pub viewed_all : List Bool × Store → List Bool × Ledger
viewed_all (bs, s) = (bs, view s)

-- Every history of writing statements, run on the database, reports statement by statement what its
-- abstract view promises, and leaves a database whose view is the one promised: each statement adds a
-- row under a free key, or changes the row under one key where it is there and passes the test, or
-- changes nothing, and the order in which the rows stand plays no part. The changes of a consumer's
-- transfer are taken to leave its key alone.
pub execute_all-refines :
    (sts : List Statement) (s : Store)
    → All Keeps sts
    → viewed_all (execute_all sts s) ≡ promise_all sts (view s)
unfolding execute_all promise_all
execute_all-refines [] s k = refl
execute_all-refines (st ∷ sts) s k = rw (← execute-refines st s k.0) (
    ap (λ (r : List Bool × Ledger). ((execute st s).0 ∷ r.0, r.1))
      (execute_all-refines sts (execute st s).1 k.1))
