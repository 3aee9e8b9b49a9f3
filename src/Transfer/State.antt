-- ===== src/Transfer/State.antt =====
-- The transfer states of internal/dsp/transfer.go, and which of them a message may move.
-- A configured sequence holds texts that `config.validate` has checked to be among these.
use dataspace_in_a_box.Base.{◌≡◌, refl, ◌↔◌, Bool, true, false, ◌||◌, arith}

pub data TransferState : Type 0 where
  requested started completed suspended terminated : TransferState

abbrev pub same_state : TransferState → TransferState → Bool
same_state requested requested = true
same_state started started = true
same_state completed completed = true
same_state suspended suspended = true
same_state terminated terminated = true
same_state _ _ = false

pub same_state_iff : (a b : TransferState) → (same_state a b ≡ true) ↔ (a ≡ b)
same_state_iff a b = ground arith

unfoldable pub start_legal_from : TransferState → Bool
start_legal_from state = same_state state requested || same_state state suspended

unfoldable pub provider_inbound_start_legal_from : TransferState → Bool
provider_inbound_start_legal_from state = same_state state suspended

unfoldable pub completion_legal_from : TransferState → Bool
completion_legal_from state = same_state state started

unfoldable pub suspension_legal_from : TransferState → Bool
suspension_legal_from state = same_state state started

unfoldable pub termination_legal_from : TransferState → Bool
termination_legal_from state =
    same_state state requested || same_state state started || same_state state suspended

-- The moves of a transfer, in either role.
infix 40 ◌⟶◌ ◌⟶*◌
pub data ◌⟶◌ : TransferState → TransferState → Type 0 where
  start : requested ⟶ started
  resume : suspended ⟶ started
  complete : started ⟶ completed
  suspend : started ⟶ suspended
  drop_requested : requested ⟶ terminated
  drop_started : started ⟶ terminated
  drop_suspended : suspended ⟶ terminated

pub data ◌⟶*◌ : TransferState → TransferState → Type 0 where
  here : {s : TransferState} → s ⟶* s
  then : {s t u : TransferState} → s ⟶ t → t ⟶* u → s ⟶* u

pub ruleset moves = (start, resume, complete, suspend, drop_requested, drop_started, drop_suspended)

pub ⟶*-trans : {s t u : TransferState} → s ⟶* t → t ⟶* u → s ⟶* u
⟶*-trans here q = q
⟶*-trans (then m p) q = then m (⟶*-trans p q)

abbrev pub IsTerminal : TransferState → Type 0
IsTerminal completed = Unit
IsTerminal terminated = Unit
IsTerminal _ = ⊥

no_move : {s t : TransferState} → s ⟶ t → IsTerminal s → ⊥
no_move start h = h
no_move resume h = h
no_move complete h = h
no_move suspend h = h
no_move drop_requested h = h
no_move drop_started h = h
no_move drop_suspended h = h

pub IsTerminal-⟶* : {s t : TransferState} → s ⟶* t → IsTerminal s → s ≡ t
IsTerminal-⟶* here h = refl
IsTerminal-⟶* (then m p) h = absurd (no_move m h)
