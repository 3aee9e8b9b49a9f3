-- ===== src/Store/Moves/Negotiations.antt =====
-- The database calls on negotiations and agreements let the database evolve.
use dataspace_in_a_box.Base.{String, ℕ, ◌≡◌, refl, Bool, true, false, not, Option, none, some, List}
use dataspace_in_a_box.Guarantee.{Moves}
use dataspace_in_a_box.Store.Rows.{
  Negotiation, ConsumerNegotiation, Agreement, Store, negotiation_key, consumer_negotiation_key,
  agreement_key,
}
use dataspace_in_a_box.Store.Table.{insert}
use dataspace_in_a_box.Store.Table.Evolution.{Evolves-insert}
use dataspace_in_a_box.Store.Evolution.{
  StoreEvolves, StoreEvolves-refl, change_negotiations, change_consumer_negotiations,
  change_agreements, negotiation_life, consumer_negotiation_life, agreement_life,
}
use dataspace_in_a_box.Negotiation.State as NegotiationStates
use dataspace_in_a_box.Negotiation.State.{NegotiationState}
use dataspace_in_a_box.Store.Negotiations.{
  select_negotiation, insert_negotiation, update_state, update_rerequested,
  select_consumer_negotiation, insert_consumer_negotiation, update_consumer_state,
  update_consumer_provider_pid,
}
use dataspace_in_a_box.Store.Agreements.{
  select_agreement, insert_agreement, issued, insert_if_allowed, insert_if_agreed,
  insert_agreement_if_negotiation_agreed,
}
use dataspace_in_a_box.Store.Moves.{
  inserted_evolves, negotiation_update, consumer_negotiation_update,
}

pub Moves-select_negotiation : (pid : String) → Moves (select_negotiation pid)
unfolding select_negotiation
Moves-select_negotiation pid = record { moves_at = StoreEvolves-refl }

pub Moves-insert_negotiation :
    (n : Negotiation) → n.state ≡ NegotiationStates.requested → Moves (insert_negotiation n)
unfolding insert_negotiation
Moves-insert_negotiation n h = record {
  moves_at = λ s. inserted_evolves s (insert negotiation_key n s.negotiations) _ λ rows e.
      change_negotiations s rows (
        Evolves-insert negotiation_life negotiation_key n s.negotiations rows e
          (rw h NegotiationStates.here));
}

-- The path of one move, from a row whose state passed the test of the UPDATE.
negotiation_path :
    (state from to : NegotiationState)
    → NegotiationStates.same_state state from ≡ true
    → NegotiationStates.◌⟶◌ from to
    → NegotiationStates.◌⟶*◌ state to
negotiation_path state from to t m =
    rw ((NegotiationStates.same_state_iff state from).0 t)
      (NegotiationStates.then m NegotiationStates.here)

pub Moves-update_state :
    (pid : String) (from to : NegotiationState) (at : ℕ)
    → NegotiationStates.◌⟶◌ from to
    → Moves (update_state pid from to at)
unfolding update_state
Moves-update_state pid from to at m = record {
  moves_at =
      negotiation_update pid (λ n. NegotiationStates.same_state n.state from)
        (λ n. record n { state = to; updated_at = at }) (λ r. refl)
        (λ n t. record {
          path = negotiation_path n.state from to t m;
          terms = refl;
          flag = λ f. f;
        });
}

pub Moves-update_rerequested : (pid : String) → Moves (update_rerequested pid)
unfolding update_rerequested
Moves-update_rerequested pid = record {
  moves_at =
      negotiation_update pid (λ n. not n.rerequested) (λ n. record n { rerequested = true })
        (λ r. refl)
        (λ n t. record { path = NegotiationStates.here; terms = refl; flag = λ f. refl });
}

pub Moves-select_consumer_negotiation : (pid : String) → Moves (select_consumer_negotiation pid)
unfolding select_consumer_negotiation
Moves-select_consumer_negotiation pid = record { moves_at = StoreEvolves-refl }

pub Moves-insert_consumer_negotiation :
    (n : ConsumerNegotiation)
    → n.state ≡ NegotiationStates.requested
    → Moves (insert_consumer_negotiation n)
unfolding insert_consumer_negotiation
Moves-insert_consumer_negotiation n h = record {
  moves_at = λ s.
      inserted_evolves s (insert consumer_negotiation_key n s.consumer_negotiations) _ λ rows e.
        change_consumer_negotiations s rows (
          Evolves-insert consumer_negotiation_life consumer_negotiation_key n
            s.consumer_negotiations rows e (rw h NegotiationStates.here));
}

pub Moves-update_consumer_state :
    (pid : String) (from to : NegotiationState) (at : ℕ)
    → NegotiationStates.◌⟶◌ from to
    → Moves (update_consumer_state pid from to at)
unfolding update_consumer_state
Moves-update_consumer_state pid from to at m = record {
  moves_at =
      consumer_negotiation_update pid (λ n. NegotiationStates.same_state n.state from)
        (λ n. record n { state = to; updated_at = at }) (λ r. refl)
        (λ n t. record { path = negotiation_path n.state from to t m; terms = refl });
}

pub Moves-update_consumer_provider_pid :
    (pid provider_pid : String) (at : ℕ) → Moves (update_consumer_provider_pid pid provider_pid at)
unfolding update_consumer_provider_pid
Moves-update_consumer_provider_pid pid provider_pid at = record {
  moves_at =
      consumer_negotiation_update pid (λ n. true)
        (λ n. record n { provider_pid = provider_pid; updated_at = at }) (λ r. refl)
        (λ n t. record { path = NegotiationStates.here; terms = refl });
}

pub Moves-select_agreement : (id : String) → Moves (select_agreement id)
unfolding select_agreement
Moves-select_agreement id = record { moves_at = StoreEvolves-refl }

pub Moves-insert_agreement : (a : Agreement) → Moves (insert_agreement a)
unfolding insert_agreement
Moves-insert_agreement a = record {
  moves_at = λ s. inserted_evolves s (insert agreement_key a s.agreements) _ λ rows e.
      change_agreements s rows
        (Evolves-insert agreement_life agreement_key a s.agreements rows e tt);
}

issued_evolves :
    (state : NegotiationState) (a : Agreement) (s : Store) (o : Option (List Agreement))
    → insert agreement_key a s.agreements ≡ o
    → StoreEvolves s (issued state s o).1
unfolding issued
issued_evolves state a s none e = StoreEvolves-refl s
issued_evolves state a s (some rows) e =
    change_agreements s rows (Evolves-insert agreement_life agreement_key a s.agreements rows e tt)

insert_if_allowed_evolves :
    (allowed : Bool) (state : NegotiationState) (a : Agreement) (s : Store)
    → StoreEvolves s (insert_if_allowed allowed state a s).1
unfolding insert_if_allowed
insert_if_allowed_evolves true state a s = issued_evolves state a s _ refl
insert_if_allowed_evolves false state a s = StoreEvolves-refl s

insert_if_agreed_evolves :
    (o : Option Negotiation) (allowed : List NegotiationState) (a : Agreement) (s : Store)
    → StoreEvolves s (insert_if_agreed o allowed a s).1
unfolding insert_if_agreed
insert_if_agreed_evolves none allowed a s = StoreEvolves-refl s
insert_if_agreed_evolves (some n) allowed a s = insert_if_allowed_evolves _ n.state a s

pub Moves-insert_agreement_if_negotiation_agreed :
    (pid : String) (allowed : List NegotiationState) (a : Agreement)
    → Moves (insert_agreement_if_negotiation_agreed pid allowed a)
unfolding insert_agreement_if_negotiation_agreed
Moves-insert_agreement_if_negotiation_agreed pid allowed a = record {
  moves_at = λ s. insert_if_agreed_evolves _ allowed a s;
}
