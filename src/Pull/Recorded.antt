-- ===== src/Pull/Recorded.antt =====
-- What the row of the transfer says after a pull.
use dataspace_in_a_box.Base.{
  ℕ, suc, String, ◌≡◌, refl, ◌∙◌, inl, inr, Bool, true, false, Option, none, some, Option-cases,
  eq_refl, arith, if◌then◌else◌,
}
use mathlib.Core.Path.{subst}
use dataspace_in_a_box.Config.{Config}
use dataspace_in_a_box.Message.{DataAddress}
use dataspace_in_a_box.Action.{
  Result, ok, err, Env, World, Outcome, ret, Act, pure, db, continue, ◌>>=◌,
}
use dataspace_in_a_box.Guarantee.{Rely}
use dataspace_in_a_box.Store.Table.{find, update}
use dataspace_in_a_box.Store.Table.Laws.{update-some, update-none}
use dataspace_in_a_box.Store.Table.Evolution.{RowEvolves}
use dataspace_in_a_box.Store.Evolution.{StoreEvolves, StoreEvolves-trans, consumer_transfer_life}
use dataspace_in_a_box.Store.Rows.{ConsumerTransfer, Store, consumer_transfer_key}
use dataspace_in_a_box.Store.Negotiations.{affected, conclude}
use dataspace_in_a_box.Store.Transfers.{update_consumer_transfer, record_consumer_transfer_outcome}
use dataspace_in_a_box.Pull.Outcome.{Disk, Site, PullOutcome}
use dataspace_in_a_box.Pull.Run.{Pulled, pull, record_outcome, run_pull_transfer_data}
use dataspace_in_a_box.Pull.Described.{Described, pull-Described}
use dataspace_in_a_box.Pull.Safety.{Safe-pull}

abbrev row_of : String → Store → Option ConsumerTransfer
row_of pid s = find consumer_transfer_key pid s.consumer_transfer_processes

present :
    (t : ConsumerTransfer) (o : Option ConsumerTransfer)
    → RowEvolves consumer_transfer_life (some t) o
    → (u : ConsumerTransfer) × (o ≡ some u)
present t none h = absurd h
present t (some u) h = (u, refl)

follow :
    (s s' : Store) (pid : String) (t : ConsumerTransfer)
    → StoreEvolves s s'
    → row_of pid s ≡ some t
    → (u : ConsumerTransfer) × (row_of pid s' ≡ some u)
follow s s' pid t h e = present t _ (
    subst (λ o. RowEvolves consumer_transfer_life o (row_of pid s')) e
      (h.consumer_transfer_processes pid))

-- An UPDATE that tests nothing changes the row that is there.
updated :
    (pid : String) (change : ConsumerTransfer → ConsumerTransfer) (s : Store) (t : ConsumerTransfer)
    → ((u : ConsumerTransfer) → consumer_transfer_key (change u) ≡ consumer_transfer_key u)
    → row_of pid s ≡ some t
    → row_of pid (update_consumer_transfer pid (λ u. true) change s).1 ≡ some (change t)
unfolding update_consumer_transfer affected
updated pid change s t keeps h =
    elim (Option-cases
      (update consumer_transfer_key pid (λ u. true) change s.consumer_transfer_processes)) [
        | inl e ↦ ground (arith, update-none consumer_transfer_key pid (λ u. true) change _ e)
        | inr (rows, e) ↦
            let u =
              update-some consumer_transfer_key pid (λ u. true) change keeps
                s.consumer_transfer_processes rows e in
            rw e (u.after pid ∙ rw (eq_refl pid) (cc (u.found)))
      ]

-- The row holds what the outcome says.
pub record Recorded (r : Pulled) (o : Option ConsumerTransfer) : Type 0 where
  pub row : ConsumerTransfer
  pub found : o ≡ some row
  pub received : row.received_bytes ≡ r.0.received
  pub path : row.data_path ≡ r.0.path
  pub completed : row.data_completed_at ≡ r.0.completed
  pub failure : row.data_error ≡ r.0.failure

concluded :
    (c : Result Bool) (d : Disk) (e : Env) (w : World)
    → ((conclude c (pure (ok tt)) >>= λ recorded. pure d) e w) ≡ (ret d, w)
unfolding conclude pure continue ◌>>=◌
concluded (err x) d e w = refl
concluded (ok true) d e w = refl
concluded (ok false) d e w = refl

abbrev with_outcome : PullOutcome → ConsumerTransfer → ConsumerTransfer
with_outcome o t = record t {
  received_bytes = o.received;
  data_path = o.path;
  data_completed_at = o.completed;
  data_error = o.failure;
}

module _ (t : ConsumerTransfer) (e : Env) (sound : (k : ℕ) → e.fails k ≡ false) where
  record_outcome-writes :
      (o : PullOutcome) (d : Disk) (w : World)
      → record_outcome t (o, d) e w ≡ (
        ret d,
        record w {
          tick = suc w.tick;
          store =
              (update_consumer_transfer t.consumer_pid
                (λ u. true)
                (with_outcome o)
                (e.others w.tick w.store)).1;
        },
      )
  unfolding record_outcome record_consumer_transfer_outcome db ◌>>=◌ continue
  record_outcome-writes o d w = rw (sound w.tick) (
      concluded
        (update_consumer_transfer t.consumer_pid (λ u. true) (with_outcome o)
          (e.others w.tick w.store)).0
        d e _)

  record_outcome-Recorded :
      (r : Pulled) (w : World) (row : ConsumerTransfer)
      → row_of t.consumer_pid (e.others w.tick w.store) ≡ some row
      → ((record_outcome t r e w).0 ≡ ret r.1)
        × Recorded r (row_of t.consumer_pid (record_outcome t r e w).1.store)
  record_outcome-Recorded (o, d) w row h = rw (record_outcome-writes o d w) (
    refl,
    record {
      row = with_outcome o row;
      found = updated t.consumer_pid (with_outcome o) _ row (λ u. refl) h;
      received = refl;
      path = refl;
      completed = refl;
      failure = refl;
    },
  )

continue_ret :
    (o : Outcome Pulled) (f : Pulled → Act Disk) (e : Env) (w : World) (r : Pulled)
    → o ≡ ret r
    → continue o f e w ≡ f r e w
unfolding continue
continue_ret o f e w r h = rw h refl

otherwise :
    (b : Bool) (m n : Act Disk) (e : Env) (w : World) → b ≡ false → (if b then m else n) e w ≡ n e w
otherwise true m n e w h = absurd (ground arith)
otherwise false m n e w h = refl

run_not_dropped :
    (cfg : Config) (site : Site) (t : ConsumerTransfer) (address : Option DataAddress)
    (before : Disk) (e : Env) (w : World) (r : Pulled)
    → site.in_flight ≡ false
    → (pull cfg site t address before e w).0 ≡ ret r
    → run_pull_transfer_data cfg site t address before e w
      ≡ record_outcome t r e (pull cfg site t address before e w).1
unfolding run_pull_transfer_data ◌>>=◌
run_not_dropped cfg site t address before e w r free h =
    otherwise site.in_flight _ _ e w free ∙ continue_ret _ (record_outcome t) e _ r h

-- A pull that is not dropped, of a transfer that has a row, comes to one of the two ends of
-- `pull-Described` and leaves the transfer's row with the byte count, the path, the completion and
-- the reason of that end, where no call of the database fails: whichever of its other calls fail,
-- whatever the counterparty does, and whatever the other goroutines do before each of its effects, so long as they
-- keep the guarantee.
pub run_pull_transfer_data-Recorded :
    (cfg : Config) (site : Site) (t : ConsumerTransfer) (address : Option DataAddress)
    (before : Disk) (e : Env) (w : World)
    → Rely e
    → ((k : ℕ) → e.fails k ≡ false)
    → site.in_flight ≡ false
    → (row : ConsumerTransfer)
    → find consumer_transfer_key t.consumer_pid w.store.consumer_transfer_processes ≡ some row
    → (r : Pulled) × Described cfg site t before r
      × ((run_pull_transfer_data cfg site t address before e w).0 ≡ ret r.1)
      × Recorded r (
          find consumer_transfer_key t.consumer_pid
            (run_pull_transfer_data cfg site t address before e
              w).1.store.consumer_transfer_processes)
run_pull_transfer_data-Recorded cfg site t address before e w rely sound free row h =
    let (r, yielded, described) = pull-Described cfg site t address before e w in
    let w' : World = (pull cfg site t address before e w).1 in
    let grown = ((Safe-pull cfg site t address before).at e rely w).store in
    let (u, found) =
      follow w.store (e.others w'.tick w'.store) t.consumer_pid row
        (StoreEvolves-trans w.store w'.store _ grown (rely w'.tick w'.store)) h in
    let (returned, recorded) = record_outcome-Recorded t e sound r w' u found in
    (
      r,
      described,
      rw (run_not_dropped cfg site t address before e w r free yielded) returned,
      rw (run_not_dropped cfg site t address before e w r free yielded) recorded,
    )
