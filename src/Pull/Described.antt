-- ===== src/Pull/Described.antt =====
-- The row that a pull writes describes the disk that it leaves.
use dataspace_in_a_box.Base.{
  ℕ, ◌+◌, ◌≤◌, ◌≡◌, refl, sym, ap, ◌∙◌, String, Bool, true, false, ◌⊎◌, inl, inr, Option, none,
  some, [], ◌∷◌, ◌++◌, ◌==◌, ltb, length, length-append, if◌then◌else◌, Bool-cases, arith,
}
use dataspace_in_a_box.Config.{Config}
use dataspace_in_a_box.Message.{DataAddress}
use dataspace_in_a_box.Action.{Result, ok, err, Env, World, ret, pure}
use dataspace_in_a_box.Store.Negotiations.{conclude}
use dataspace_in_a_box.Store.Rows.{ConsumerTransfer}
use dataspace_in_a_box.Store.Transfers.{set_consumer_transfer_expected_bytes}
use dataspace_in_a_box.Range.{Bytes, ContentRange}
use dataspace_in_a_box.Pull.Outcome.{
  Disk, Cut, idle, shutting_down, broken, Response, Attempt, answered, unanswered, Site,
  PullOutcome, fail, succeed, size, bytes_of, existing_size, fresh_outcome, discard_partial,
}
use dataspace_in_a_box.Pull.Response.{
  Verdict, stop, proceed, unanswered_reason, discard_and_fail, check_partial, check_resumed,
  check_fresh,
}
use dataspace_in_a_box.Pull.Copy.{copy_limit, Copied, copy, kept, cut_reason, complaint}
use dataspace_in_a_box.Pull.Run.{
  Pulled, final_path, publish, store_body, note_expected, take_response, receive, request_data,
  contact, pull,
}
use dataspace_in_a_box.Pull.Yields.{
  Anything, Yields, Yields-bind, Yields-pure, Yields-if, Yields-time_now, yields_rules,
}

-- The partial download as `os.Stat` lets the pull see it.
abbrev pub found_bytes : Site → Disk → Bytes
found_bytes site d = if site.stats then bytes_of d.partial else []

-- The partial download could not be measured, and the pull did not touch it: it counts as empty.
pub record Overlooked (site : Site) (before : Disk) (received : ℕ) (partial : Option Bytes)
    : Type 0 where
  pub unmeasured : site.stats ≡ false
  pub zero : received ≡ 0
  pub untouched : partial ≡ before.partial

-- A count of the bytes of the partial download.
abbrev pub Counted : Site → Disk → ℕ → Option Bytes → Type 0
Counted site before received partial =
    (received ≡ size partial) ⊎ Overlooked site before received partial

-- The pull did not finish: the row has a reason and no completion, and it counts the bytes of the
-- partial download, if that could be measured; what was published before is still there.
pub record Stopped (site : Site) (before : Disk) (r : Pulled) : Type 0 where
  pub open_ended : r.0.completed ≡ none
  pub told : (r.0.failure == "") ≡ false
  pub counted : Counted site before r.0.received r.1.partial
  pub unpublished : r.1.final ≡ before.final

-- The pull finished: the row has a completion and no reason, and it counts and names the published
-- file, which begins with what the pull found of an earlier attempt and is not larger than the ceiling.
pub record Finished (cfg : Config) (site : Site) (t : ConsumerTransfer) (before : Disk) (r : Pulled)
    : Type 0 where
  pub dated : (at : ℕ) × (r.0.completed ≡ some at)
  pub quiet : r.0.failure ≡ ""
  pub placed : r.0.path ≡ final_path cfg t.consumer_pid
  pub counted : r.0.received ≡ size r.1.final
  pub published : (rest : Bytes) × (r.1.final ≡ some (found_bytes site before ++ rest))
  pub moved : r.1.partial ≡ none
  pub bounded : r.0.received ≤ cfg.max_download_bytes

abbrev pub Described : Config → Site → ConsumerTransfer → Disk → Pulled → Type 0
Described cfg site t before r = Stopped site before r ⊎ Finished cfg site t before r

-- What is not yet decided: the outcome counts the partial download.
record Counting (site : Site) (before : Disk) (o : PullOutcome) (d : Disk) : Type 0 where
  open_ended : o.completed ≡ none
  counted : Counted site before o.received d.partial

fail-Stopped :
    (site : Site) (reason : String) (o : PullOutcome) (d before : Disk)
    → (reason == "") ≡ false
    → Counting site before o d
    → d.final ≡ before.final
    → Stopped site before (fail reason o, d)
unfolding fail
fail-Stopped site reason o d before h c u = record {
  open_ended = c.open_ended;
  told = h;
  counted = c.counted;
  unpublished = u;
}

fresh_outcome-Counting : (site : Site) (d : Disk) → Counting site d (fresh_outcome site d) d
unfolding fresh_outcome existing_size
fresh_outcome-Counting site d = record {
  open_ended = refl;
  counted = elim (Bool-cases site.stats) [
    | inl e ↦ inl (ground arith)
    | inr e ↦ inr (record { unmeasured = e; zero = ground arith; untouched = refl })
  ];
}

data VerdictStopped (site : Site) (before : Disk) : Verdict → Type 0 where
  halts :
      (o : PullOutcome) (d : Disk)
      → Stopped site before (o, d)
      → VerdictStopped site before (stop o d)
  goes_on : (stated : Option ℕ) → VerdictStopped site before (proceed stated)

fail-halts :
    (site : Site) (reason : String) (o : PullOutcome) (d : Disk)
    → (reason == "") ≡ false
    → Counting site d o d
    → VerdictStopped site d (stop (fail reason o) d)
fail-halts site reason o d h c = halts _ _ (fail-Stopped site reason o d d h c refl)

abbrev discarded : Bool → PullOutcome → Disk → Pulled
discarded removes o d =
    if removes then (record o { received = 0 }, record d { partial = none }) else (o, d)

discarded-Stopped :
    (site : Site) (removes : Bool) (reason : String) (o : PullOutcome) (d : Disk)
    → (reason == "") ≡ false
    → Counting site d o d
    → VerdictStopped site d (stop (fail reason (discarded removes o d).0) (discarded removes o d).1)
unfolding fail
discarded-Stopped site true reason o d h c =
    halts (fail reason (record o { received = 0 })) (record d { partial = none })
      (record { open_ended = c.open_ended; told = h; counted = inl refl; unpublished = refl })
discarded-Stopped site false reason o d h c =
    halts (fail reason o) d
      (record { open_ended = c.open_ended; told = h; counted = c.counted; unpublished = refl })

discard_and_fail-Stopped :
    (site : Site) (reason : String) (o : PullOutcome) (d : Disk)
    → (reason == "") ≡ false
    → Counting site d o d
    → VerdictStopped site d (discard_and_fail site reason o d)
unfolding discard_and_fail discard_partial
discard_and_fail-Stopped site reason o d h c = discarded-Stopped site site.removes reason o d h c

if-VerdictStopped :
    (site : Site) (b : Bool) (before : Disk) (u v : Verdict)
    → VerdictStopped site before u
    → VerdictStopped site before v
    → VerdictStopped site before (if b then u else v)
if-VerdictStopped site true before u v h k = h
if-VerdictStopped site false before u v h k = k

check_partial-Stopped :
    (site : Site) (t : ConsumerTransfer) (n : ℕ) (range : ContentRange) (o : PullOutcome) (d : Disk)
    → Counting site d o d
    → VerdictStopped site d (check_partial site t n range o d)
unfolding check_partial
check_partial-Stopped site t n range o d c =
    if-VerdictStopped site _ d _ _ (fail-halts site _ o d refl c)
      (if-VerdictStopped site _ d _ _ (discard_and_fail-Stopped site _ o d refl c) (goes_on _))

check_resumed-Stopped :
    (site : Site) (t : ConsumerTransfer) (n : ℕ) (r : Response) (o : PullOutcome) (d : Disk)
    → Counting site d o d
    → VerdictStopped site d (check_resumed site t n r o d)
unfolding check_resumed
check_resumed-Stopped site t n r o d c =
    if-VerdictStopped site _ d _ _ (check_partial-Stopped site t n _ o d c) (
      if-VerdictStopped site _ d _ _ (discard_and_fail-Stopped site _ o d refl c)
        (fail-halts site _ o d refl c))

check_fresh-Stopped :
    (site : Site) (r : Response) (o : PullOutcome) (d : Disk)
    → Counting site d o d
    → VerdictStopped site d (check_fresh r o d)
unfolding check_fresh
check_fresh-Stopped site r o d c =
    if-VerdictStopped site _ d _ _ (fail-halts site _ o d refl c) (goes_on _)

cut_reason-told : (cut : Cut) → (cut_reason cut == "") ≡ false
unfolding cut_reason
cut_reason-told idle = refl
cut_reason-told shutting_down = refl
cut_reason-told broken = refl

unanswered_reason-told : (cut : Cut) → (unanswered_reason cut == "") ≡ false
unfolding unanswered_reason
unanswered_reason-told idle = refl
unanswered_reason-told shutting_down = refl
unanswered_reason-told broken = refl

-- A complaint has a text, and where there is none the total is within the ceiling.
data Complains (max total : ℕ) : Option String → Type 0 where
  objects : (reason : String) → (reason == "") ≡ false → Complains max total (some reason)
  agrees : total ≤ max → Complains max total none

if-Complains :
    (b : Bool) (max total : ℕ) (p q : Option String)
    → (b ≡ true → Complains max total p)
    → (b ≡ false → Complains max total q)
    → Complains max total (if b then p else q)
if-Complains true max total p q h k = h refl
if-Complains false max total p q h k = k refl

not_past : (max total : ℕ) → ltb max total ≡ false → total ≤ max
not_past max total h = ground arith

complaint-Complains :
    (site : Site) (max expected total : ℕ) (cut : Option Cut)
    → Complains max total (complaint site max expected total cut)
unfolding complaint
complaint-Complains site max expected total (some cut) = objects _ (cut_reason-told cut)
complaint-Complains site max expected total none =
    search (if-Complains, objects, agrees, not_past) depth 20

empty_of_length : (s : Bytes) → ltb 0 (length s) ≡ false → s ≡ []
empty_of_length [] h = refl
empty_of_length (c ∷ s) h = ground arith

conclude-Yields : (changed : Result Bool) → Yields Anything (conclude changed (pure (ok tt)))
unfolding conclude
conclude-Yields (err x) = Yields-pure Anything _ tt
conclude-Yields (ok true) = Yields-pure Anything _ tt
conclude-Yields (ok false) = Yields-pure Anything _ tt

set_expected-Yields :
    (pid : String) (expected : ℕ)
    → Yields Anything (set_consumer_transfer_expected_bytes pid expected)
unfolding set_consumer_transfer_expected_bytes
set_expected-Yields pid expected = search (yields_rules, conclude-Yields)

module _ (cfg : Config) (t : ConsumerTransfer) (before : Disk) where
  abbrev Settled : Site → Pulled → Type 0
  Settled site = Described cfg site t before

  publish-Described :
      (site : Site) (c : Option String) (o : PullOutcome) (d : Disk) (rest : Bytes)
      → Complains cfg.max_download_bytes o.received c
      → o.completed ≡ none
      → o.received ≡ size d.partial
      → d.final ≡ before.final
      → d.partial ≡ some (found_bytes site before ++ rest)
      → Yields (Settled site) (publish cfg site t c o d)
  unfolding publish
  publish-Described site c o d rest (objects reason h) none_yet k u p =
      Yields-pure (Settled site) _ (
        inl (
          fail-Stopped site reason o d before h (record { open_ended = none_yet; counted = inl k })
            u))
  publish-Described site c o d rest (agrees h) none_yet k u p =
      Yields-bind Anything (Settled site) _ _ Yields-time_now
        (λ now x. Yields-pure (Settled site) _ (inr (done now)))
    where
      done :
          (now : ℕ)
          → Finished cfg site t before (
            succeed (final_path cfg t.consumer_pid) now o,
            record d { partial = none; final = d.partial },
          )
      done now =
          unfold succeed in
          record {
            dated = (now, refl);
            quiet = refl;
            placed = refl;
            counted = k;
            published = (rest, p);
            moved = refl;
            bounded = h;
          }

  -- The bytes that are kept are those that the outcome counts.
  kept_measured : (d : Disk) → kept (ltb 0 (size d.partial)) d ≡ bytes_of d.partial
  unfolding kept
  kept_measured d = elim (Bool-cases (ltb 0 (size d.partial))) [
    | inl e ↦ rw e refl
    | inr e ↦ rw e (sym (empty_of_length (bytes_of d.partial) e))
  ]

  kept_bytes : (site : Site) (d : Disk) → kept (ltb 0 (existing_size site d)) d ≡ found_bytes site d
  unfolding existing_size
  kept_bytes site d = elim (Bool-cases site.stats) [
    | inl e ↦ rw e (kept_measured d)
    | inr e ↦ rw e (unfold kept in refl)
  ]

  length-found_bytes : (site : Site) (d : Disk) → length (found_bytes site d) ≡ existing_size site d
  unfolding existing_size
  length-found_bytes site d = elim (Bool-cases site.stats) [ inl e ↦ rw e refl | inr e ↦ rw e refl ]

  store_body-Described :
      (site : Site) (expected : ℕ) (r : Response) (o : PullOutcome) (d : Disk)
      → Counting site before o d
      → d.final ≡ before.final
      → d.partial ≡ before.partial
      → Yields (Settled site) (store_body cfg site t (ltb 0 (existing_size site d)) expected r o d)
  unfolding store_body
  store_body-Described site expected r o d k u p =
      Yields-if (Settled site) _ _ _
        (Yields-pure (Settled site) _ (inl (fail-Stopped site _ o d before refl k u)))
        (publish-Described site _ _ _ written
          (complaint-Complains site cfg.max_download_bytes expected total copied.error) k.open_ended
          counted u grown)
    where
      copied : Copied
      copied = copy site (copy_limit cfg.max_download_bytes (existing_size site d)) r

      written : Bytes
      written = copied.bytes

      total : ℕ
      total = existing_size site d + length written

      counted : total ≡ length (kept (ltb 0 (existing_size site d)) d ++ written)
      counted = rw (kept_bytes site d) (
          ap (λ n. n + length written) (sym (length-found_bytes site d))
          ∙ sym (length-append (found_bytes site d) written))

      grown :
          some (kept (ltb 0 (existing_size site d)) d ++ written)
          ≡ some (found_bytes site before ++ written)
      grown =
          rw (kept_bytes site d)
            (ap (λ file. some ((if site.stats then bytes_of file else []) ++ written)) p)

  pub note_expected-Yields : (expected : ℕ) → Yields Anything (note_expected t expected)
  unfolding note_expected
  note_expected-Yields expected = search (yields_rules, Yields-pure, set_expected-Yields)

  take_response-Described :
      (r : Response) (site : Site) (o : PullOutcome) (v : Verdict)
      → Counting site before o before
      → VerdictStopped site before v
      → Yields
          (Settled site)
          (take_response cfg site t (ltb 0 (existing_size site before)) r o before v)
  unfolding take_response
  take_response-Described r site o v k (halts o' d' h) = Yields-pure (Settled site) _ (inl h)
  take_response-Described r site o v k (goes_on stated) =
      Yields-bind Anything (Settled site) _ _ (note_expected-Yields _)
        (λ u x. store_body-Described site _ r o before k refl refl)

  receive-Described :
      (site : Site) (o : PullOutcome) (a : Attempt)
      → Counting site before o before
      → Yields (Settled site) (receive cfg site t (ltb 0 (existing_size site before)) o before a)
  unfolding receive
  receive-Described site o (unanswered cut) k =
      Yields-pure (Settled site) _
        (inl (fail-Stopped site _ o before before (unanswered_reason-told cut) k refl))
  receive-Described site o (answered r) k = take_response-Described r site o _ k (
      if-VerdictStopped site _ before _ _ (check_resumed-Stopped site t _ r o before k)
        (check_fresh-Stopped site r o before k))

  request_data-Described :
      (site : Site) (endpoint : String) (o : PullOutcome) (minted : Option String)
      → Counting site before o before
      → Yields (Settled site) (request_data cfg site t endpoint o before minted)
  unfolding request_data
  request_data-Described site endpoint o none k =
      Yields-pure (Settled site) _ (inl (fail-Stopped site _ o before before refl k refl))
  request_data-Described site endpoint o (some a) k = receive-Described site o _ k

  stop_now :
      (site : Site) (reason : String) (o : PullOutcome)
      → (reason == "") ≡ false
      → Counting site before o before
      → Yields (Settled site) (pure (fail reason o, before))
  stop_now site reason o h k =
      Yields-pure (Settled site) _ (inl (fail-Stopped site reason o before before h k refl))

  contact-Described :
      (site : Site) (endpoint : String) (o : PullOutcome)
      → Counting site before o before
      → Yields (Settled site) (contact cfg site t endpoint o before)
  unfolding contact
  contact-Described site endpoint o k =
      search (yields_rules, stop_now site, request_data-Described site) depth 20

-- Every pull that runs comes to one of two ends, whichever of its calls fail and whatever the
-- counterparty and the other goroutines do. Either its outcome has a reason and no completion, and
-- counts the bytes of the partial download as the pull leaves it, what was published before being
-- untouched; only where os.Stat failed at its start may it count zero instead, with the partial
-- download as it was. Or it has a completion and no reason, and counts and names the published file,
-- which is not larger than max_download_bytes, no partial download being left; the file begins with
-- what an earlier attempt had left, or with nothing of it where os.Stat failed at the start.
pub pull-Described :
    (cfg : Config) (site : Site) (t : ConsumerTransfer) (address : Option DataAddress)
    (before : Disk) (e : Env) (w : World)
    → (r : Pulled) × ((pull cfg site t address before e w).0 ≡ ret r)
      × Described cfg site t before r
unfolding pull
pull-Described cfg site t none before e w =
    (stop_now cfg t before site _ _ refl (fresh_outcome-Counting site before)).at e w
pull-Described cfg site t (some address) before e w =
    (Yields-if (Described cfg site t before) _ _ _
        (stop_now cfg t before site _ _ refl (fresh_outcome-Counting site before))
        (contact-Described cfg t before site address.endpoint _
          (fresh_outcome-Counting site before))).at
      e w
