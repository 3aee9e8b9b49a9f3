-- ===== src/Store/Agreements.antt =====
-- The operations of internal/store/store.go on `agreements`, and the roster version.
use dataspace_in_a_box.Base.{
  ℕ, String, Bool, true, false, ◌||◌, Option, none, some, List, [], ◌∷◌, ltb, if◌then◌else◌,
}
use dataspace_in_a_box.Action.{Result, ok, err, failed, Act, pure, db, ◌>>=◌}
use dataspace_in_a_box.Negotiation.State.{NegotiationState, same_state}
use dataspace_in_a_box.Store.Table.{find, insert}
use dataspace_in_a_box.Store.Rows.{Negotiation, Agreement, Store, negotiation_key, agreement_key}
use dataspace_in_a_box.Store.Negotiations.{inserted}

unfoldable pub select_agreement : String → Store → Result (Option Agreement) × Store
select_agreement id s = (ok (find agreement_key id s.agreements), s)

unfoldable pub insert_agreement : Agreement → Store → Result (Unit {0}) × Store
insert_agreement a s =
    inserted s (insert agreement_key a s.agreements) (λ rows. record s { agreements = rows })

unfoldable pub get_agreement : String → Act (Result (Option Agreement))
get_agreement id = db (select_agreement id)

unfoldable pub create_agreement : Agreement → Act (Result (Unit {0}))
create_agreement a = db (insert_agreement a)

unfoldable pub is_one_of : NegotiationState → List NegotiationState → Bool
is_one_of state [] = false
is_one_of state (want ∷ states) = same_state state want || is_one_of state states

-- One transaction, so one call: the state is read and the agreement written with nothing between.
-- The answer is whether the agreement was recorded, and the state that was found.
unfoldable pub issued :
    NegotiationState
    → Store
    → Option (List Agreement)
    → Result (Bool × Option NegotiationState) × Store
issued state s none = (err failed, s)
issued state s (some rows) = (ok (true, some state), record s { agreements = rows })

unfoldable pub insert_if_allowed :
    Bool → NegotiationState → Agreement → Store → Result (Bool × Option NegotiationState) × Store
insert_if_allowed true state a s = issued state s (insert agreement_key a s.agreements)
insert_if_allowed false state a s = (ok (false, some state), s)

unfoldable pub insert_if_agreed :
    Option Negotiation
    → List NegotiationState
    → Agreement
    → Store
    → Result (Bool × Option NegotiationState) × Store
insert_if_agreed none allowed a s = (ok (false, none), s)
insert_if_agreed (some n) allowed a s = insert_if_allowed (is_one_of n.state allowed) n.state a s

unfoldable pub insert_agreement_if_negotiation_agreed :
    String
    → List NegotiationState
    → Agreement
    → Store
    → Result (Bool × Option NegotiationState) × Store
insert_agreement_if_negotiation_agreed provider_pid allowed a s =
    insert_if_agreed (find negotiation_key provider_pid s.negotiations) allowed a s

unfoldable pub create_agreement_if_negotiation_agreed :
    String → List NegotiationState → Agreement → Act (Result (Bool × Option NegotiationState))
create_agreement_if_negotiation_agreed provider_pid allowed a =
    db (insert_agreement_if_negotiation_agreed provider_pid allowed a)

unfoldable pub select_roster_version : Store → Result (Option ℕ) × Store
select_roster_version s = (ok s.roster_version, s)

unfoldable pub upsert_roster_version : ℕ → Store → Result (Unit {0}) × Store
upsert_roster_version version s = (ok tt, record s { roster_version = some version })

-- Whether a roster of this version is refused, needs no write, or is written down.
pub data Verdict : Type 0 where
  older known newer : Verdict

unfoldable pub judge_version : Option ℕ → ℕ → Verdict
judge_version none version = newer
judge_version (some highest) version =
    if ltb version highest then older else if ltb highest version then newer else known

unfoldable pub record_verdict : Verdict → ℕ → Act (Result (Unit {0}))
record_verdict older version = pure (err failed)
record_verdict known version = pure (ok tt)
record_verdict newer version = db (upsert_roster_version version)

unfoldable pub judge_read : Result (Option ℕ) → ℕ → Act (Result (Unit {0}))
judge_read (err x) version = pure (err x)
judge_read (ok highest) version = record_verdict (judge_version highest version) version

unfoldable pub record_roster_version : ℕ → Act (Result (Unit {0}))
record_roster_version version = do highest ← db select_roster_version; judge_read highest version
