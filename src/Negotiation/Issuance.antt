-- ===== src/Negotiation/Issuance.antt =====
-- When the provider records an agreement.
use dataspace_in_a_box.Base.{
  suc, String, ◌≡◌, refl, ◌⊎◌, inl, inr, true, none, some, [], ◌∷◌, ◌==◌, Bool-cases, arith,
  if◌then◌else◌,
}
use dataspace_in_a_box.Store.Table.{find}
use dataspace_in_a_box.Store.Rows.{
  Negotiation, Origin, Agreement, Store, negotiation_key, agreement_key,
}
use dataspace_in_a_box.Action.{Env, World, pure, db, time_now, continue, ◌>>=◌}
use dataspace_in_a_box.Negotiation.State.{
  NegotiationState, requested, offered, accepted, agreed, verified, finalized, terminated,
}
use dataspace_in_a_box.Store.Agreements.{is_one_of, create_agreement_if_negotiation_agreed}
use dataspace_in_a_box.Store.Insertion.{insert_agreement_if_negotiation_agreed-issues}
use dataspace_in_a_box.Negotiation.Provider.{record_issued_agreement}

-- The states that an agreement message leads to.
abbrev pub HasIssued : NegotiationState → Type 0
HasIssued agreed = Unit
HasIssued verified = Unit
HasIssued finalized = Unit
HasIssued _ = ⊥

is_one_of-HasIssued :
    (s : NegotiationState) → is_one_of s (agreed ∷ verified ∷ finalized ∷ []) ≡ true → HasIssued s
unfolding is_one_of
is_one_of-HasIssued agreed h = tt
is_one_of-HasIssued verified h = tt
is_one_of-HasIssued finalized h = tt
is_one_of-HasIssued requested h = absurd (ground arith)
is_one_of-HasIssued offered h = absurd (ground arith)
is_one_of-HasIssued accepted h = absurd (ground arith)
is_one_of-HasIssued terminated h = absurd (ground arith)

-- The agreement that a negotiation leads to.
abbrev pub agreement_of : Negotiation → Env → World → Agreement
agreement_of n e w = record {
  agreement_id = n.provider_pid;
  dataset_id = n.dataset_id;
  consumer_pid = n.consumer_pid;
  origin = Origin.negotiated;
  counterparty_id = n.counterparty_id;
  created_at = e.now w.tick;
}

-- From the database that the transaction meets to the one that it leaves.
abbrev pub Issues : Negotiation → Agreement → Store → Store → Type 0
Issues n a s s' =
    (m : Negotiation) × (find negotiation_key n.provider_pid s.negotiations ≡ some m)
    × HasIssued m.state
    × (find agreement_key a.agreement_id s.agreements ≡ none)
    × ((id : String)
        → find agreement_key id s'.agreements
          ≡ (if a.agreement_id == id then some a else find agreement_key id s.agreements))

-- Recording the agreement of a negotiation changes nothing, or its transaction met the negotiation
-- in AGREED, VERIFIED or FINALIZED and no agreement under its pid, and added that one agreement;
-- whatever the environment does. So a negotiation that was terminated meanwhile leads to no
-- agreement.
pub record_issued_agreement-Issues :
    (n : Negotiation) (e : Env) (w : World)
    → ((record_issued_agreement n e w).1.store ≡ e.others (suc w.tick) w.store)
      ⊎ Issues n
          (agreement_of n e w)
          (e.others (suc w.tick) w.store)
          (record_issued_agreement n e w).1.store
unfolding record_issued_agreement create_agreement_if_negotiation_agreed time_now db pure ◌>>=◌
    continue
record_issued_agreement-Issues n e w = elim (Bool-cases (e.fails (suc w.tick))) [
  | inl f ↦ inl (rw f refl)
  | inr f ↦
      rw f
        (elim (insert_agreement_if_negotiation_agreed-issues n.provider_pid
          (agreed ∷ verified ∷ finalized ∷ []) (agreement_of n e w)
          (e.others (suc w.tick) w.store)) [
            | inl same ↦ inl same
            | inr (m, found, allowed, free, added) ↦
                inr (m, found, is_one_of-HasIssued m.state allowed, free, added)
          ])
]
