-- ===== src/Store/Swap.antt =====
-- What the conditional updates of internal/store/store.go promise: they are compare-and-swap steps.
use dataspace_in_a_box.Base.{
  ℕ, suc, String, ◌≡◌, refl, ap, ◌∙◌, inl, inr, Bool, true, false, not, Option, none, some, List,
  Option-cases, Bool-cases, arith, eq_refl, if◌then◌else◌,
}
use dataspace_in_a_box.Store.Table.{find, update}
use dataspace_in_a_box.Store.Table.Laws.{Updated, update-some, update-none}
use dataspace_in_a_box.Store.Rows.{Negotiation, Store, negotiation_key}
use dataspace_in_a_box.Store.Evolution.{StoreEvolves}
use dataspace_in_a_box.Store.Follow.{follow_negotiation}
use dataspace_in_a_box.Action.{
  not_found, state_changed, failed, Result, ok, err, Env, World, ret, pure, db, continue, ◌>>=◌,
}
use dataspace_in_a_box.Negotiation.State.{NegotiationState, same_state}
use dataspace_in_a_box.Store.Negotiations.{
  affected, select_negotiation, update_state, update_rerequested, get, explanation,
  explain_no_update, conclude, set_state,
}

-- No other goroutine acts and no database call fails.
pub record Undisturbed (e : Env) : Type 0 where
  pub alone : (k : ℕ) (s : Store) → e.others k s ≡ s
  pub sound : (k : ℕ) → e.fails k ≡ false

-- What a compare-and-swap reports, given the row that is there.
unfoldable pub swap_report : Option Negotiation → (Negotiation → Bool) → Result (Unit {0})
swap_report none test = err not_found
swap_report (some n) test = if test n then ok tt else err state_changed

affected-true :
    (s : Store) (o : Option (List Negotiation)) (f : List Negotiation → Store)
    → (affected s o f).0 ≡ ok true
    → (rows : List Negotiation) × (o ≡ some rows) × ((affected s o f).1 ≡ f rows)
unfolding affected
affected-true s none f h = absurd (ground arith)
affected-true s (some rows) f h = (rows, refl, refl)

-- One conditional UPDATE of the negotiations, whatever it tests and sets.
module _ (pid : String) (test : Negotiation → Bool) (change : Negotiation → Negotiation)
    (keeps : (n : Negotiation) → negotiation_key (change n) ≡ negotiation_key n) (s : Store) where
  abbrev swap : Result Bool × Store
  swap =
      affected s (update negotiation_key pid test change s.negotiations)
        (λ rows. record s { negotiations = rows })

  pub swap_true :
      swap.0 ≡ ok true → Updated negotiation_key pid test change s.negotiations swap.1.negotiations
  swap_true h =
      let (rows, e, p) = affected-true s _ (λ rows. record s { negotiations = rows }) h in
      rw p (update-some negotiation_key pid test change keeps s.negotiations rows e)

  pub swap_cases :
      (n : Negotiation) → find negotiation_key pid s.negotiations ≡ some n → swap.0 ≡ ok (test n)
  unfolding affected
  swap_cases n h = elim (Option-cases (update negotiation_key pid test change s.negotiations)) [
    | inl e ↦ ground (arith, update-none negotiation_key pid test change s.negotiations e)
    | inr (rows, e) ↦
        let u = update-some negotiation_key pid test change keeps s.negotiations rows e in
        ground (arith, u.found, u.passed)
  ]

  pub swap_missing : find negotiation_key pid s.negotiations ≡ none → swap.0 ≡ ok false
  unfolding affected
  swap_missing h = elim (Option-cases (update negotiation_key pid test change s.negotiations)) [
    | inl e ↦ ground arith
    | inr (rows, e) ↦
        let u = update-some negotiation_key pid test change keeps s.negotiations rows e in
        ground (arith, u.found)
  ]

  pub swap_false : swap.0 ≡ ok false → swap.1 ≡ s
  unfolding affected
  swap_false h = elim (Option-cases (update negotiation_key pid test change s.negotiations)) [
    | inl e ↦ ground arith
    | inr (rows, e) ↦ ground arith
  ]

explanation_err : {Row : Type 0} (r : Result (Option Row)) → explanation r ≡ ok tt → ⊥
unfolding explanation
explanation_err (ok none) h = ground arith
explanation_err (ok (some n)) h = ground arith
explanation_err (err x) h = ground arith

ret_inj : {A : Type 0} (a b : A) → ret a ≡ ret b → a ≡ b
ret_inj a b h = ground arith

-- A reported success is the success of the UPDATE itself.
conclude_ok :
    (r : Result Bool) (pid : String) (e : Env) (w : World)
    → (conclude r (explain_no_update pid) e w).0 ≡ ret (ok tt)
    → (r ≡ ok true) × ((conclude r (explain_no_update pid) e w).1 ≡ w)
unfolding conclude explain_no_update get db pure ◌>>=◌ continue
conclude_ok (ok true) pid e w h = (refl, refl)
conclude_ok (ok false) pid e w h = absurd (explanation_err _ (ret_inj _ _ h))
conclude_ok (err x) pid e w h = absurd (ground arith)

step_true :
    (fails : Bool) (r : Result Bool × Store) (s : Store)
    → (if fails then (err failed, s) else r).0 ≡ ok true
    → (fails ≡ false) × (r.0 ≡ ok true)
step_true true r s h = absurd (ground arith)
step_true false r s h = (refl, h)

-- Whatever the environment does, a `SetState` that reports success found the row in the state that
-- it wanted, at the instant of its UPDATE, replaced that row's state and time, and changed no other
-- row of the table.
pub set_state-swaps :
    (pid : String) (from to : NegotiationState) (at : ℕ) (e : Env) (w : World)
    → (set_state pid from to at e w).0 ≡ ret (ok tt)
    → Updated negotiation_key pid
        (λ n. same_state n.state from)
        (λ n. record n { state = to; updated_at = at })
        (e.others w.tick w.store).negotiations
        (set_state pid from to at e w).1.store.negotiations
unfolding set_state db ◌>>=◌ continue update_state
set_state-swaps pid from to at e w h =
    let s : Store = e.others w.tick w.store in
    let (c, p) = conclude_ok _ pid e _ h in
    let (f, g) = step_true (e.fails w.tick) _ s c in rw p (rw f (swap_true pid _ _ (λ n. refl) s g))

-- One call of `SetState`, undisturbed.
module _ (pid : String) (from to : NegotiationState) (at : ℕ) (e : Env) (w : World)
    (u : Undisturbed e) where
  -- The world in which the UPDATE affected no row.
  unchanged :
      (update_state pid from to at w.store).0 ≡ ok false
      → (set_state pid from to at e w).0
        ≡ ret (explanation (ok (find negotiation_key pid w.store.negotiations)))
  unfolding set_state db ◌>>=◌ continue update_state conclude explain_no_update get pure
      select_negotiation
  unchanged h =
      let same =
        swap_false pid (λ n. same_state n.state from)
          (λ n. record n { state = to; updated_at = at }) (λ n. refl) w.store h in
      rw (u.alone w.tick w.store) (
        rw (u.sound w.tick)
          (rw h (rw same (rw (u.alone (suc w.tick) w.store) (rw (u.sound (suc w.tick)) refl)))))

  changed :
      (update_state pid from to at w.store).0 ≡ ok true
      → (set_state pid from to at e w).0 ≡ ret (ok tt)
  unfolding set_state db ◌>>=◌ continue conclude pure
  changed h = rw (u.alone w.tick w.store) (rw (u.sound w.tick) (rw h refl))

  -- With nobody interfering and no call failing, `SetState` reports what a compare-and-swap does:
  -- success if the row is in the wanted state, a lost race if it is in another, and a missing row
  -- if there is none.
  pub set_state-reports :
      (set_state pid from to at e w).0
      ≡ ret (
          swap_report
            (find negotiation_key pid w.store.negotiations)
            (λ n. same_state n.state from))
  unfolding swap_report update_state explanation
  set_state-reports = elim (Option-cases (find negotiation_key pid w.store.negotiations)) [
    | inl h ↦ rw h (ground (arith, unchanged (swap_missing pid _ _ (λ n. refl) w.store h)))
    | inr (n, h) ↦
        let c =
          swap_cases pid (λ n. same_state n.state from)
            (λ n. record n { state = to; updated_at = at }) (λ n. refl) w.store n h in
        rw h (elim (Bool-cases (same_state n.state from)) [
          | inl t ↦ rw t (changed (c ∙ ap ok t))
          | inr t ↦ rw t (unchanged (c ∙ ap ok t) ∙ ap (λ o. ret (explanation (ok o))) h)
        ])
  ]

-- The one re-request is taken at most once: after an update of the flag that affected a row, the
-- same update affects none, in whatever the database has become by changes that keep the guarantee.
pub update_rerequested-once :
    (pid : String) (s s' : Store)
    → (update_rerequested pid s).0 ≡ ok true
    → StoreEvolves (update_rerequested pid s).1 s'
    → (update_rerequested pid s').0 ≡ ok false
unfolding update_rerequested
update_rerequested-once pid s s' h ev =
    let u =
      swap_true pid (λ n. not n.rerequested) (λ n. record n { rerequested = true }) (λ n. refl) s
        h in
    let f =
      follow_negotiation _ s' pid (record u.row { rerequested = true }) ev
        (u.after pid ∙ rw (eq_refl pid) refl) in
    swap_cases pid (λ n. not n.rerequested) (λ n. record n { rerequested = true }) (λ n. refl) s'
      f.row f.found
    ∙ rw (f.steps.flag refl) refl
