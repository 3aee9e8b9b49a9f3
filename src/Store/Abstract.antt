-- ===== src/Store/Abstract.antt =====
-- What the store promises, with its representation forgotten: each table is a function from primary
-- keys to rows, and each statement of internal/store/store.go changes it at one key.
pub mod Refinement
use dataspace_in_a_box.Base.{
  ℕ, String, ◌≡◌, Bool, true, false, not, Option, none, some, List, [], ◌∷◌, ◌==◌, if◌then◌else◌,
}
use dataspace_in_a_box.Negotiation.State as NegotiationStates
use dataspace_in_a_box.Negotiation.State.{NegotiationState}
use dataspace_in_a_box.Transfer.State as TransferStates
use dataspace_in_a_box.Transfer.State.{TransferState}
use dataspace_in_a_box.Action.{Result, ok, err}
use dataspace_in_a_box.Store.Table.{find}
use dataspace_in_a_box.Store.Rows.{
  Negotiation, ConsumerNegotiation, Agreement, TransferProcess, ConsumerTransfer, Store,
  negotiation_key, consumer_negotiation_key, agreement_key, transfer_key, consumer_transfer_key,
}
use dataspace_in_a_box.Store.Negotiations.{
  insert_negotiation, update_state, update_rerequested, insert_consumer_negotiation,
  update_consumer_state, update_consumer_provider_pid,
}
use dataspace_in_a_box.Store.Agreements.{
  insert_agreement, insert_agreement_if_negotiation_agreed, is_one_of, upsert_roster_version,
}
use dataspace_in_a_box.Store.Transfers.{
  insert_transfer, update_transfer_state, insert_consumer_transfer, update_consumer_transfer,
}

-- A map from keys to rows, and a change of it at one key.
abbrev pub Rows : Type 0 → Type 0
Rows Row = String → Option Row

module _ {Row : Type 0} where
  unfoldable pub put : String → Row → Rows Row → Rows Row
  put k r m j = if k == j then some r else m j

  -- A new row under its key: refused where the key is taken.
  unfoldable pub add : (Row → String) → Row → Rows Row → Bool × Rows Row
  add key r m = elim (m (key r)) [ none ↦ (true, put (key r) r m) | some taken ↦ (false, m) ]

  -- A compare-and-swap: the row changes where it is there and passes the test.
  unfoldable pub swap : String → (Row → Bool) → (Row → Row) → Rows Row → Bool × Rows Row
  swap k test change m = elim (m k) [
    | none ↦ (false, m)
    | some r ↦ if test r then (true, put k (change r) m) else (false, m)
  ]

pub record Ledger : Type 0 where
  pub negotiations : Rows Negotiation
  pub consumer_negotiations : Rows ConsumerNegotiation
  pub agreements : Rows Agreement
  pub transfers : Rows TransferProcess
  pub consumer_transfers : Rows ConsumerTransfer
  pub roster_version : Option ℕ

-- The statements that write, one to a constructor.
pub data Statement : Type 0 where
  new_negotiation : Negotiation → Statement
  move_negotiation : String → NegotiationState → NegotiationState → ℕ → Statement
  take_re_request : String → Statement
  new_consumer_negotiation : ConsumerNegotiation → Statement
  move_consumer_negotiation : String → NegotiationState → NegotiationState → ℕ → Statement
  adopt_provider_pid : String → String → ℕ → Statement
  new_agreement : Agreement → Statement
  issue_agreement : String → List NegotiationState → Agreement → Statement
  new_transfer : TransferProcess → Statement
  move_transfer : String → TransferState → TransferState → ℕ → Statement
  new_consumer_transfer : ConsumerTransfer → Statement
  change_consumer_transfer :
      String → (ConsumerTransfer → Bool) → (ConsumerTransfer → ConsumerTransfer) → Statement
  note_roster_version : ℕ → Statement

-- The changes of a consumer's transfer leave its key alone.
abbrev pub Keeps : Statement → Type 0
Keeps (change_consumer_transfer pid test change) =
    (t : ConsumerTransfer) → consumer_transfer_key (change t) ≡ consumer_transfer_key t
Keeps _ = Unit

unfoldable pub succeeded : Result (Unit {0}) → Bool
succeeded (ok u) = true
succeeded (err x) = false

unfoldable pub affects : Result Bool → Bool
affects (ok b) = b
affects (err x) = false

unfoldable pub recorded : Result (Bool × Option NegotiationState) → Bool
recorded (ok (b, state)) = b
recorded (err x) = false

abbrev pub reported : {A : Type 0} → (Result A → Bool) → Result A × Store → Bool × Store
reported read (r, s) = (read r, s)

-- What the operations of the store do: whether a row was written, and the database after it.
unfoldable pub execute : Statement → Store → Bool × Store
execute (new_negotiation n) s = reported succeeded (insert_negotiation n s)
execute (move_negotiation pid from to at) s = reported affects (update_state pid from to at s)
execute (take_re_request pid) s = reported affects (update_rerequested pid s)
execute (new_consumer_negotiation n) s = reported succeeded (insert_consumer_negotiation n s)
execute (move_consumer_negotiation pid from to at) s =
    reported affects (update_consumer_state pid from to at s)
execute (adopt_provider_pid pid provider_pid at) s =
    reported affects (update_consumer_provider_pid pid provider_pid at s)
execute (new_agreement a) s = reported succeeded (insert_agreement a s)
execute (issue_agreement pid allowed a) s =
    reported recorded (insert_agreement_if_negotiation_agreed pid allowed a s)
execute (new_transfer t) s = reported succeeded (insert_transfer t s)
execute (move_transfer pid from to at) s = reported affects (update_transfer_state pid from to at s)
execute (new_consumer_transfer t) s = reported succeeded (insert_consumer_transfer t s)
execute (change_consumer_transfer pid test change) s =
    reported affects (update_consumer_transfer pid test change s)
execute (note_roster_version version) s = reported succeeded (upsert_roster_version version s)

-- An agreement is issued where the negotiation is in an allowed state.
unfoldable pub may_issue : Option Negotiation → List NegotiationState → Bool
may_issue none allowed = false
may_issue (some n) allowed = is_one_of n.state allowed

abbrev pub within : {Row : Type 0} → Bool × Rows Row → (Rows Row → Ledger) → Bool × Ledger
within (b, m) lift = (b, lift m)

-- What the statements promise.
unfoldable pub promise : Statement → Ledger → Bool × Ledger
promise (new_negotiation n) l =
    within (add negotiation_key n l.negotiations) (λ m. record l { negotiations = m })
promise (move_negotiation pid from to at) l =
    within
      (swap pid (λ n. NegotiationStates.same_state n.state from)
        (λ n. record n { state = to; updated_at = at }) l.negotiations)
      (λ m. record l { negotiations = m })
promise (take_re_request pid) l =
    within (swap pid (λ n. not n.rerequested) (λ n. record n { rerequested = true }) l.negotiations)
      (λ m. record l { negotiations = m })
promise (new_consumer_negotiation n) l =
    within (add consumer_negotiation_key n l.consumer_negotiations)
      (λ m. record l { consumer_negotiations = m })
promise (move_consumer_negotiation pid from to at) l =
    within
      (swap pid (λ n. NegotiationStates.same_state n.state from)
        (λ n. record n { state = to; updated_at = at }) l.consumer_negotiations)
      (λ m. record l { consumer_negotiations = m })
promise (adopt_provider_pid pid provider_pid at) l =
    within
      (swap pid (λ n. true) (λ n. record n { provider_pid = provider_pid; updated_at = at })
        l.consumer_negotiations)
      (λ m. record l { consumer_negotiations = m })
promise (new_agreement a) l =
    within (add agreement_key a l.agreements) (λ m. record l { agreements = m })
promise (issue_agreement pid allowed a) l =
    if may_issue (l.negotiations pid) allowed
    then within (add agreement_key a l.agreements) (λ m. record l { agreements = m })
    else (false, l)
promise (new_transfer t) l =
    within (add transfer_key t l.transfers) (λ m. record l { transfers = m })
promise (move_transfer pid from to at) l =
    within
      (swap pid (λ t. TransferStates.same_state t.state from)
        (λ t. record t { state = to; updated_at = at }) l.transfers)
      (λ m. record l { transfers = m })
promise (new_consumer_transfer t) l =
    within (add consumer_transfer_key t l.consumer_transfers)
      (λ m. record l { consumer_transfers = m })
promise (change_consumer_transfer pid test change) l =
    within (swap pid test change l.consumer_transfers) (λ m. record l { consumer_transfers = m })
promise (note_roster_version version) l = (true, record l { roster_version = some version })

-- A history: the statements one after the other, with what each reports.
unfoldable pub execute_all : List Statement → Store → List Bool × Store
execute_all [] s = ([], s)
execute_all (st ∷ sts) s =
    let (b, s') = execute st s in let (bs, s'') = execute_all sts s' in (b ∷ bs, s'')

unfoldable pub promise_all : List Statement → Ledger → List Bool × Ledger
promise_all [] l = ([], l)
promise_all (st ∷ sts) l =
    let (b, l') = promise st l in let (bs, l'') = promise_all sts l' in (b ∷ bs, l'')
