-- ===== src/Store/Insertion.antt =====
-- What the INSERTs of internal/store/store.go promise, the guarded one of an agreement included.
use dataspace_in_a_box.Base.{
  String, ◌≡◌, refl, ◌⊎◌, inl, inr, true, none, some, List, ◌==◌, Option-cases, Bool-cases,
  if◌then◌else◌,
}
use dataspace_in_a_box.Store.Table.{find, insert}
use dataspace_in_a_box.Store.Table.Laws.{find-insert, insert_free, insert_taken}
use dataspace_in_a_box.Store.Rows.{Negotiation, Agreement, Store, negotiation_key, agreement_key}
use dataspace_in_a_box.Action.{failed, ok, err}
use dataspace_in_a_box.Negotiation.State.{NegotiationState}
use dataspace_in_a_box.Store.Negotiations.{inserted, insert_negotiation}
use dataspace_in_a_box.Store.Agreements.{
  is_one_of, issued, insert_if_allowed, insert_if_agreed, insert_agreement_if_negotiation_agreed,
}

-- A negotiation is created under a provider pid that is free, and is then what a look-up of that
-- pid answers, all other pids answering as before; under a pid that is taken the call fails and
-- changes nothing.
pub insert_negotiation-creates :
    (n : Negotiation) (s : Store)
    → (find negotiation_key n.provider_pid s.negotiations ≡ none)
        × ((insert_negotiation n s).0 ≡ ok tt)
        × ((pid : String)
            → find negotiation_key pid (insert_negotiation n s).1.negotiations
              ≡ (if n.provider_pid == pid then some n else find negotiation_key pid s.negotiations))
      ⊎ ((m : Negotiation) × (find negotiation_key n.provider_pid s.negotiations ≡ some m)
          × (insert_negotiation n s ≡ (err failed, s)))
unfolding insert_negotiation inserted
insert_negotiation-creates n s =
    elim (Option-cases (find negotiation_key n.provider_pid s.negotiations)) [
      | inl h ↦
          let (rows, e) = insert_free negotiation_key n s.negotiations h in
          inl (h, rw e refl, λ pid. rw e (find-insert negotiation_key pid n s.negotiations rows e))
      | inr (m, h) ↦ inr (m, h, rw (insert_taken negotiation_key n m s.negotiations h) refl)
    ]

insert_agreement-Adds :
    (a : Agreement) (s : Store) (state : NegotiationState)
    → ((issued state s (insert agreement_key a s.agreements)).1 ≡ s)
      ⊎ ((find agreement_key a.agreement_id s.agreements ≡ none)
          × ((id : String)
              → find agreement_key id
                  (issued state s (insert agreement_key a s.agreements)).1.agreements
                ≡ (if a.agreement_id == id then some a else find agreement_key id s.agreements)))
unfolding issued
insert_agreement-Adds a s state =
    elim (Option-cases (find agreement_key a.agreement_id s.agreements)) [
      | inl h ↦
          let (rows, e) = insert_free agreement_key a s.agreements h in
          inr (h, λ id. rw e (find-insert agreement_key id a s.agreements rows e))
      | inr (m, h) ↦ inl (rw (insert_taken agreement_key a m s.agreements h) refl)
    ]

-- The transaction that issues an agreement: either it changes nothing, or at the instant at which it
-- ran the negotiation was in one of the allowed states and no agreement had the id, and it added
-- that one agreement.
pub insert_agreement_if_negotiation_agreed-issues :
    (pid : String) (allowed : List NegotiationState) (a : Agreement) (s : Store)
    → ((insert_agreement_if_negotiation_agreed pid allowed a s).1 ≡ s)
      ⊎ ((n : Negotiation) × (find negotiation_key pid s.negotiations ≡ some n)
          × (is_one_of n.state allowed ≡ true)
          × (find agreement_key a.agreement_id s.agreements ≡ none)
          × ((id : String)
              → find agreement_key id
                  (insert_agreement_if_negotiation_agreed pid allowed a s).1.agreements
                ≡ (if a.agreement_id == id then some a else find agreement_key id s.agreements)))
unfolding insert_agreement_if_negotiation_agreed insert_if_agreed insert_if_allowed
insert_agreement_if_negotiation_agreed-issues pid allowed a s =
    elim (Option-cases (find negotiation_key pid s.negotiations)) [
      | inl h ↦ inl (rw h refl)
      | inr (n, h) ↦ elim (Bool-cases (is_one_of n.state allowed)) [
        | inl t ↦ elim (insert_agreement-Adds a s n.state) [
          | inl same ↦ inl (rw h (rw t same))
          | inr (fresh, added) ↦ inr (n, h, t, fresh, rw h (rw t added))
        ]
        | inr t ↦ inl (rw h (rw t refl))
      ]
    ]
