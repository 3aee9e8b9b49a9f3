-- ===== src/Transfer/Driving.antt =====
-- What the driver of a configured sequence does when nobody interferes.
use dataspace_in_a_box.Base.{
  ℕ, suc, ◌+◌, String, ◌≡◌, refl, ◌∙◌, inl, inr, Bool, true, false, some, List, [], ◌∷◌, ◌++◌,
  eq_refl, false≢true, length, Option-cases, Bool-cases, arith, if◌then◌else◌,
}
use dataspace_in_a_box.Config.{Config}
use dataspace_in_a_box.Message.{Push}
use dataspace_in_a_box.Store.Table.{find, update}
use dataspace_in_a_box.Store.Table.Laws.{update-some, update-none}
use dataspace_in_a_box.Store.Rows.{TransferProcess, Store, agreement_key, transfer_key}
use dataspace_in_a_box.Store.Swap.{Undisturbed}
use dataspace_in_a_box.Store.Negotiations.{affected, conclude}
use dataspace_in_a_box.Store.Transfers.{update_transfer_state, set_transfer_state}
use dataspace_in_a_box.Store.Agreements.{get_agreement, select_agreement}
use dataspace_in_a_box.Action.{
  ok, Env, World, Outcome, ret, pure, db, time_now, validate_outgoing_callback, push_callback,
  continue, ◌>>=◌,
}
use dataspace_in_a_box.Transfer.State.{
  TransferState, requested, started, completed, suspended, terminated, same_state, same_state_iff,
  start_legal_from, completion_legal_from, suspension_legal_from, termination_legal_from,
}
use dataspace_in_a_box.Transfer.Provider.{
  Step, callback_url, source_of, has_source_for, source_for_step, transfer_step_message, succeeded,
  push_and_set, push_if_legal, push_transfer_step, drive_steps,
}

-- An UPDATE by key and state of a row that is there in that state.
pub record Present (pid : String) (state : TransferState) (s : Store) : Type 0 where
  pub row : TransferProcess
  pub found : find transfer_key pid s.transfer_processes ≡ some row
  pub in_state : row.state ≡ state

-- A call that set the state of the row, sent `pushes` messages and answered `answer`.
pub record Reached {A : Type 0} (pid : String) (answer : A) (state : TransferState) (pushes : ℕ)
    (w : World) (o : Outcome A × World) : Type 0 where
  pub answers : o.0 ≡ ret answer
  pub present : Present pid state o.1.store
  pub sent : length o.1.sent ≡ length w.sent + pushes

module _ (pid : String) (from to : TransferState) (at : ℕ) (s : Store)
    (p : Present pid from s) where
  update-Present :
      ((update_transfer_state pid from to at s).0 ≡ ok true)
      × Present pid to (update_transfer_state pid from to at s).1
  unfolding update_transfer_state affected
  update-Present =
      elim (Option-cases (
        update transfer_key pid (λ t. same_state t.state from)
          (λ t. record t { state = to; updated_at = at }) s.transfer_processes)) [
            | inl h ↦ absurd (
                ground (
                  arith,
                  p.found,
                  p.in_state,
                  same_state_iff p.row.state from,
                  update-none transfer_key pid (λ t. same_state t.state from)
                      (λ t. record t { state = to; updated_at = at }) s.transfer_processes h,
                ))
            | inr (rows, h) ↦
                let v =
                  update-some transfer_key pid (λ t. same_state t.state from)
                    (λ t. record t { state = to; updated_at = at }) (λ t. refl) s.transfer_processes
                    rows h in
                rw h (
                  refl,
                  record {
                    row = record v.row { state = to; updated_at = at };
                    found = v.after pid ∙ rw (eq_refl pid) refl;
                    in_state = refl;
                  },
                )
          ]

module _ (e : Env) (u : Undisturbed e) where
  set-Present :
      (pid : String) (from to : TransferState) (at : ℕ) (w : World)
      → Present pid from w.store
      → Reached pid (ok tt) to 0 w (set_transfer_state pid from to at e w)
  unfolding set_transfer_state db ◌>>=◌ continue conclude pure
  set-Present pid from to at w p =
      let (h, q) = update-Present pid from to at w.store p in
      rw (u.alone w.tick w.store, u.sound w.tick, h)
        (record { answers = refl; present = q; sent = ground arith })

-- The legality of a step, without its message.
unfoldable pub is_legal_step : TransferState → TransferState → Bool
is_legal_step from started = start_legal_from from
is_legal_step from suspended = suspension_legal_from from
is_legal_step from completed = completion_legal_from from
is_legal_step from terminated = termination_legal_from from
is_legal_step from requested = false

-- The states that a sequence reaches before its first illegal step, and the last of them.
unfoldable pub legal_prefix : TransferState → List TransferState → List TransferState
legal_prefix from [] = []
legal_prefix from (to ∷ states) =
    let rest = legal_prefix to states in if is_legal_step from to then to ∷ rest else []

unfoldable pub last_state : TransferState → List TransferState → TransferState
last_state from [] = from
last_state from (to ∷ states) = last_state to states

length-snoc : {A : Type 0} (xs : List A) (x : A) → length (xs ++ x ∷ []) ≡ length xs + 1
length-snoc [] x = refl
length-snoc (y ∷ xs) x = ground (arith, length-snoc xs x)

module _ (e : Env) (u : Undisturbed e)
    (open_net : (k : ℕ) (url : String) → e.sendable k url ≡ true) where
  push_and_set-Reached :
      (t : TransferProcess) (to : TransferState) (step : Step) (w : World)
      → Present t.provider_pid t.state w.store
      → Reached t.provider_pid true to 1 w (push_and_set t to step e w)
  unfolding push_and_set validate_outgoing_callback push_callback time_now pure ◌>>=◌ continue
      succeeded
  push_and_set-Reached t to step w p =
      let push : Push = record {
        url = callback_url t step;
        message = step.message;
        audience = t.counterparty_id;
      } in
      let w1 : World = record w { tick = suc (suc (suc w.tick)); sent = w.sent ++ push ∷ [] } in
      let r = set-Present e u t.provider_pid t.state to (e.now (suc (suc w.tick))) w1 p in
      rw (open_net w.tick push.url, r.answers)
        (record {
          answers = refl;
          present = r.present;
          sent = ground (arith, r.sent, length-snoc w.sent push);
        })

  -- Asking for a source changes nothing but the number of effects.
  source-quiet :
      (cfg : Config) (t : TransferProcess) (to : TransferState) (w : World)
      → (b : Bool) × (k : ℕ) × (source_for_step cfg t to e w ≡ (ret b, record w { tick = k }))
  unfolding source_for_step has_source_for get_agreement select_agreement db pure ◌>>=◌ continue
  source-quiet cfg t started w = (
    source_of cfg (ok (find agreement_key t.agreement_id w.store.agreements)),
    suc w.tick,
    rw (u.alone w.tick w.store, u.sound w.tick) refl,
  )
  source-quiet cfg t requested w = (_, _, refl)
  source-quiet cfg t suspended w = (_, _, refl)
  source-quiet cfg t completed w = (_, _, refl)
  source-quiet cfg t terminated w = (_, _, refl)

  legal_done :
      (cfg : Config) (t : TransferProcess) (to : TransferState) (source : Bool) (w : World)
      → Present t.provider_pid t.state w.store
      → is_legal_step t.state to ≡ true
      → Reached t.provider_pid true to 1 w
          (push_if_legal t to (transfer_step_message cfg t to source) e w)
  unfolding push_if_legal is_legal_step transfer_step_message
  legal_done cfg t started source w p h = rw h (push_and_set-Reached t started _ w p)
  legal_done cfg t suspended source w p h = rw h (push_and_set-Reached t suspended _ w p)
  legal_done cfg t completed source w p h = rw h (push_and_set-Reached t completed _ w p)
  legal_done cfg t terminated source w p h = rw h (push_and_set-Reached t terminated _ w p)
  legal_done cfg t requested source w p h = absurd (false≢true h)

  stopped :
      (t : TransferProcess) (w : World)
      → Present t.provider_pid t.state w.store
      → Reached t.provider_pid false t.state 0 w (pure false e w)
  unfolding pure
  stopped t w p = record { answers = refl; present = p; sent = ground arith }

  illegal_stops :
      (cfg : Config) (t : TransferProcess) (to : TransferState) (source : Bool) (w : World)
      → Present t.provider_pid t.state w.store
      → is_legal_step t.state to ≡ false
      → Reached t.provider_pid false t.state 0 w
          (push_if_legal t to (transfer_step_message cfg t to source) e w)
  unfolding push_if_legal is_legal_step transfer_step_message
  illegal_stops cfg t started source w p h = rw h (stopped t w p)
  illegal_stops cfg t suspended source w p h = rw h (stopped t w p)
  illegal_stops cfg t completed source w p h = rw h (stopped t w p)
  illegal_stops cfg t terminated source w p h = rw h (stopped t w p)
  illegal_stops cfg t requested source w p h = stopped t w p

  -- One step: done where it is legal, and otherwise nothing.
  step-Reached :
      (cfg : Config) (t : TransferProcess) (to : TransferState) (w : World)
      → Present t.provider_pid t.state w.store
      → is_legal_step t.state to ≡ true
      → Reached t.provider_pid true to 1 w (push_transfer_step cfg t to e w)
  unfolding push_transfer_step ◌>>=◌ continue
  step-Reached cfg t to w p h =
      let (b, k, q) = source-quiet cfg t to w in
      let r = legal_done cfg t to b (record w { tick = k }) p h in
      rw q (record { answers = r.answers; present = r.present; sent = r.sent })

  step-Reached_none :
      (cfg : Config) (t : TransferProcess) (to : TransferState) (w : World)
      → Present t.provider_pid t.state w.store
      → is_legal_step t.state to ≡ false
      → Reached t.provider_pid false t.state 0 w (push_transfer_step cfg t to e w)
  unfolding push_transfer_step ◌>>=◌ continue
  step-Reached_none cfg t to w p h =
      let (b, k, q) = source-quiet cfg t to w in
      let r = illegal_stops cfg t to b (record w { tick = k }) p h in
      rw q (record { answers = r.answers; present = r.present; sent = r.sent })

  -- With nobody interfering, no call failing and every address allowed, the driver that starts with
  -- its row's own state pushes exactly one message for each step of the longest legal prefix of the
  -- sequence, whether or not a push is acknowledged, and leaves the row in the last of their states.
  pub drive_steps-Reached :
      (cfg : Config) (states : List TransferState) (t : TransferProcess) (w : World)
      → Present t.provider_pid t.state w.store
      → Reached t.provider_pid tt
          (last_state t.state (legal_prefix t.state states))
          (length (legal_prefix t.state states))
          w
          (drive_steps cfg t states e w)
  unfolding drive_steps legal_prefix last_state pure ◌>>=◌ continue
  drive_steps-Reached cfg [] t w p = record { answers = refl; present = p; sent = ground arith }
  drive_steps-Reached cfg (to ∷ states) t w p = elim (Bool-cases (is_legal_step t.state to)) [
    | inl h ↦
        let r = step-Reached cfg t to w p h in
        let next = drive_steps-Reached cfg states (record t { state = to }) _ r.present in
        rw (h, r.answers)
          (record {
            answers = next.answers;
            present = next.present;
            sent = ground (arith, r.sent, next.sent);
          })
    | inr h ↦
        let r = step-Reached_none cfg t to w p h in
        rw (h, r.answers) (record { answers = refl; present = r.present; sent = r.sent })
  ]
