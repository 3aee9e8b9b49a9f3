-- ===== src/Negotiation/State.antt =====
-- The negotiation states of internal/dsp/negotiation.go. The store keeps them as texts; the
-- program writes no text there but these seven, so a state is one of seven constructors.
use dataspace_in_a_box.Base.{◌≡◌, refl, ◌↔◌, Bool, true, false, arith}

pub data NegotiationState : Type 0 where
  requested offered accepted agreed verified finalized terminated : NegotiationState

-- `==` on two states.
abbrev pub same_state : NegotiationState → NegotiationState → Bool
same_state requested requested = true
same_state offered offered = true
same_state accepted accepted = true
same_state agreed agreed = true
same_state verified verified = true
same_state finalized finalized = true
same_state terminated terminated = true
same_state _ _ = false

pub same_state_iff : (a b : NegotiationState) → (same_state a b ≡ true) ↔ (a ≡ b)
same_state_iff a b = ground arith

-- The moves that one message can make, for a negotiation in either role.
infix 40 ◌⟶◌ ◌⟶*◌
pub data ◌⟶◌ : NegotiationState → NegotiationState → Type 0 where
  offer : requested ⟶ offered
  direct_agreement : requested ⟶ agreed
  accept : offered ⟶ accepted
  agree : accepted ⟶ agreed
  verify : agreed ⟶ verified
  finalize : verified ⟶ finalized
  drop_requested : requested ⟶ terminated
  drop_offered : offered ⟶ terminated
  drop_accepted : accepted ⟶ terminated
  drop_agreed : agreed ⟶ terminated
  drop_verified : verified ⟶ terminated

pub data ◌⟶*◌ : NegotiationState → NegotiationState → Type 0 where
  here : {s : NegotiationState} → s ⟶* s
  then : {s t u : NegotiationState} → s ⟶ t → t ⟶* u → s ⟶* u

pub ruleset moves = (
  offer, direct_agreement, accept, agree, verify, finalize, drop_requested, drop_offered,
  drop_accepted, drop_agreed, drop_verified,
)

pub ⟶*-trans : {s t u : NegotiationState} → s ⟶* t → t ⟶* u → s ⟶* u
⟶*-trans here q = q
⟶*-trans (then m p) q = then m (⟶*-trans p q)

-- Nothing leaves FINALIZED or TERMINATED.
abbrev pub IsTerminal : NegotiationState → Type 0
IsTerminal finalized = Unit
IsTerminal terminated = Unit
IsTerminal _ = ⊥

no_move : {s t : NegotiationState} → s ⟶ t → IsTerminal s → ⊥
no_move offer h = h
no_move direct_agreement h = h
no_move accept h = h
no_move agree h = h
no_move verify h = h
no_move finalize h = h
no_move drop_requested h = h
no_move drop_offered h = h
no_move drop_accepted h = h
no_move drop_agreed h = h
no_move drop_verified h = h

pub IsTerminal-⟶* : {s t : NegotiationState} → s ⟶* t → IsTerminal s → s ≡ t
IsTerminal-⟶* here h = refl
IsTerminal-⟶* (then m p) h = absurd (no_move m h)
