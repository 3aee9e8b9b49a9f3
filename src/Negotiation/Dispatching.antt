-- ===== src/Negotiation/Dispatching.antt =====
-- What the provider's pushes lead to when nobody interferes.
use dataspace_in_a_box.Base.{
  ℕ, suc, String, ◌≡◌, refl, ap, ◌∙◌, inl, inr, true, none, some, List, [], ◌∷◌, ◌++◌, eq_refl,
  Option-cases, Bool-cases,
}
use dataspace_in_a_box.Config.{Config}
use dataspace_in_a_box.Message.{Message, Push}
use dataspace_in_a_box.Store.Table.{find, update}
use dataspace_in_a_box.Store.Table.Laws.{find-insert, insert_free}
use dataspace_in_a_box.Store.Rows.{Negotiation, Agreement, Store, negotiation_key, agreement_key}
use dataspace_in_a_box.Store.Swap.{Undisturbed, swap_true, swap_cases}
use dataspace_in_a_box.Store.Negotiations.{affected, update_state, conclude, set_state}
use dataspace_in_a_box.Store.Agreements.{
  is_one_of, issued, insert_if_allowed, insert_if_agreed, insert_agreement_if_negotiation_agreed,
  create_agreement_if_negotiation_agreed,
}
use dataspace_in_a_box.Action.{
  ok, Env, World, ret, pure, db, time_now, validate_outgoing_callback, push_callback, continue,
  ◌>>=◌,
}
use dataspace_in_a_box.Negotiation.State.{
  NegotiationState, agreed, verified, finalized, same_state, same_state_iff,
}
use dataspace_in_a_box.Negotiation.Decision.{outcome_agree}
use dataspace_in_a_box.Negotiation.Issuance.{agreement_of}
use dataspace_in_a_box.Negotiation.Build.{build_agreement_message}
use dataspace_in_a_box.Negotiation.Provider.{
  negotiation_url, push_then_store, record_issued_agreement, run_dispatch,
}

-- The row under a pid, in a state.
pub record RowIn (pid : String) (state : NegotiationState) (s : Store) : Type 0 where
  pub row : Negotiation
  pub found : find negotiation_key pid s.negotiations ≡ some row
  pub in_state : row.state ≡ state

-- A store in which one row has moved, with the agreements of the store before.
pub record Moved (pid : String) (to : NegotiationState) (s s' : Store) : Type 0 where
  pub present : RowIn pid to s'
  pub agreements : s'.agreements ≡ s.agreements

module _ (pid : String) (from to : NegotiationState) (at : ℕ) (s : Store)
    (p : RowIn pid from s) where
  updated_true : (update_state pid from to at s).0 ≡ ok true
  unfolding update_state
  updated_true =
      swap_cases pid (λ n. same_state n.state from) (λ n. record n { state = to; updated_at = at })
        (λ n. refl) s p.row p.found
      ∙ ap ok ((same_state_iff p.row.state from).1 p.in_state)

  agreements_kept : (update_state pid from to at s).1.agreements ≡ s.agreements
  unfolding update_state affected
  agreements_kept =
      elim (Option-cases (
        update negotiation_key pid (λ n. same_state n.state from)
          (λ n. record n { state = to; updated_at = at }) s.negotiations)) [
            | inl h ↦ rw h refl
            | inr (rows, h) ↦ rw h refl
          ]

  moved_row : RowIn pid to (update_state pid from to at s).1
  unfolding update_state
  moved_row =
      let v =
        swap_true pid (λ n. same_state n.state from) (λ n. record n { state = to; updated_at = at })
          (λ n. refl) s updated_true in
      record {
        row = record v.row { state = to; updated_at = at };
        found = v.after pid ∙ rw (eq_refl pid) refl;
        in_state = refl;
      }

  updated-Moved : Moved pid to s (update_state pid from to at s).1
  updated-Moved = record { present = moved_row; agreements = agreements_kept }

module _ (e : Env) (u : Undisturbed e) where
  -- The outcome of the call is that it goes on, and the row has moved.
  set_state-Moved :
      (pid : String) (from to : NegotiationState) (at : ℕ) (w : World)
      → RowIn pid from w.store
      → ((set_state pid from to at e w).0 ≡ ret (ok tt))
        × Moved pid to w.store (set_state pid from to at e w).1.store
  unfolding set_state db ◌>>=◌ continue conclude pure
  set_state-Moved pid from to at w p =
      rw (u.alone w.tick w.store, u.sound w.tick, updated_true pid from to at w.store p)
        (refl, updated-Moved pid from to at w.store p)

  -- Whether the address is allowed and the push acknowledged or not.
  push_then_store-Moved :
      (n : Negotiation) (to : NegotiationState) (path : String) (message : Message) (w : World)
      → RowIn n.provider_pid n.state w.store
      → ((push_then_store n to path message e w).0 ≡ ret tt)
        × Moved n.provider_pid to w.store (push_then_store n to path message e w).1.store
  unfolding push_then_store validate_outgoing_callback push_callback time_now pure ◌>>=◌ continue
  push_then_store-Moved n to path message w p =
      let push : Push = record {
        url = negotiation_url n path;
        message = message;
        audience = n.counterparty_id;
      } in
      let sent_world : World = record w {
        tick = suc (suc (suc w.tick));
        sent = w.sent ++ push ∷ [];
      } in
      let silent_world : World = record w { tick = suc (suc w.tick) } in
      elim (Bool-cases (e.sendable w.tick push.url)) [
        | inl h ↦
            let r =
              set_state-Moved n.provider_pid n.state to (e.now (suc (suc w.tick))) sent_world p in
            rw (h, r.0) (refl, r.1)
        | inr h ↦
            let r = set_state-Moved n.provider_pid n.state to (e.now (suc w.tick)) silent_world p in
            rw (h, r.0) (refl, r.1)
      ]

is_one_of_agreed : is_one_of agreed (agreed ∷ verified ∷ finalized ∷ []) ≡ true
unfolding is_one_of
is_one_of_agreed = refl

-- An agreement that the transaction may record and that no row has yet is recorded.
insert_agreement-Adds_present :
    (pid : String) (allowed : List NegotiationState) (a : Agreement) (s : Store)
    → (p : Negotiation) → find negotiation_key pid s.negotiations ≡ some p
    → is_one_of p.state allowed ≡ true
    → find agreement_key a.agreement_id s.agreements ≡ none
    → (find agreement_key a.agreement_id
          (insert_agreement_if_negotiation_agreed pid allowed a s).1.agreements
        ≡ some a)
      × ((insert_agreement_if_negotiation_agreed pid allowed a s).1.negotiations ≡ s.negotiations)
unfolding insert_agreement_if_negotiation_agreed insert_if_agreed insert_if_allowed issued
insert_agreement-Adds_present pid allowed a s p found t free =
    let (rows, h) = insert_free agreement_key a s.agreements free in
    rw (found, t, h)
      (
        find-insert agreement_key a.agreement_id a s.agreements rows h
            ∙ rw (eq_refl a.agreement_id) refl,
        refl,
      )

-- An agreement under a pid, with the terms of a negotiation.
pub record Concluded (n : Negotiation) (s : Store) : Type 0 where
  pub row : RowIn n.provider_pid agreed s
  pub agreement : Agreement
  pub recorded : find agreement_key n.provider_pid s.agreements ≡ some agreement
  pub dataset_id : agreement.dataset_id ≡ n.dataset_id
  pub consumer_pid : agreement.consumer_pid ≡ n.consumer_pid
  pub counterparty_id : agreement.counterparty_id ≡ n.counterparty_id

module _ (e : Env) (u : Undisturbed e) where
  record_issued_agreement-Concluded :
      (n : Negotiation) (w : World)
      → RowIn n.provider_pid agreed w.store
      → find agreement_key n.provider_pid w.store.agreements ≡ none
      → Concluded n (record_issued_agreement n e w).1.store
  unfolding record_issued_agreement create_agreement_if_negotiation_agreed time_now db pure ◌>>=◌
      continue
  record_issued_agreement-Concluded n w p free =
      let (added, kept) =
        insert_agreement-Adds_present n.provider_pid (agreed ∷ verified ∷ finalized ∷ [])
          (agreement_of n e w) w.store p.row p.found (rw p.in_state is_one_of_agreed) free in
      rw (u.alone (suc w.tick) w.store, u.sound (suc w.tick))
        (record {
          row = record { row = p.row; found = rw kept p.found; in_state = p.in_state };
          agreement = agreement_of n e w;
          recorded = added;
          dataset_id = refl;
          consumer_pid = refl;
          counterparty_id = refl;
        })

  -- With nobody interfering and no call failing, the routing decision to agree, carried out for a row
  -- that is still in the state that the decision was made for and that has no agreement yet, leaves
  -- the row AGREED and the agreement recorded under its pid with the terms of the negotiation: whether
  -- or not the address is allowed, and whether or not the push is acknowledged.
  pub run_dispatch-Concluded :
      (cfg : Config) (n : Negotiation) (w : World)
      → RowIn n.provider_pid n.state w.store
      → find agreement_key n.provider_pid w.store.agreements ≡ none
      → Concluded n (run_dispatch cfg n outcome_agree e w).1.store
  unfolding run_dispatch time_now ◌>>=◌ continue
  run_dispatch-Concluded cfg n w p free =
      let r =
        push_then_store-Moved e u n agreed "/agreement"
          (build_agreement_message cfg n (e.now w.tick)) (record w { tick = suc w.tick }) p in
      rw r.0 (record_issued_agreement-Concluded n _ r.1.present (rw r.1.agreements free))
