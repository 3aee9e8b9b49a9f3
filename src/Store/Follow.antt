-- ===== src/Store/Follow.antt =====
-- What became of one row while the database evolved.
use mathlib.Core.Path.{subst}
use dataspace_in_a_box.Base.{String, ◌≡◌, refl, Option, none, some}
use dataspace_in_a_box.Store.Table.{find}
use dataspace_in_a_box.Store.Table.Evolution.{RowEvolves}
use dataspace_in_a_box.Store.Rows.{
  Negotiation, TransferProcess, Store, transfer_key, negotiation_key,
}
use dataspace_in_a_box.Store.Evolution.{
  NegotiationSteps, negotiation_life, transfer_life, TransferSteps, StoreEvolves,
}

-- A negotiation that is there stays there, with what the row became.
pub record Followed (n : Negotiation) (o : Option Negotiation) : Type 0 where
  pub row : Negotiation
  pub found : o ≡ some row
  pub steps : NegotiationSteps n row

negotiation-Followed :
    (n : Negotiation) (o : Option Negotiation)
    → RowEvolves negotiation_life (some n) o
    → Followed n o
negotiation-Followed n none h = absurd h
negotiation-Followed n (some m) h = record { row = m; found = refl; steps = h }

pub follow_negotiation :
    (s s' : Store) (pid : String) (n : Negotiation)
    → StoreEvolves s s'
    → find negotiation_key pid s.negotiations ≡ some n
    → Followed n (find negotiation_key pid s'.negotiations)
follow_negotiation s s' pid n h e = negotiation-Followed n _ (
    subst (λ o. RowEvolves negotiation_life o (find negotiation_key pid s'.negotiations)) e
      (h.negotiations pid))

transfer-Followed :
    (t : TransferProcess) (o : Option TransferProcess)
    → RowEvolves transfer_life (some t) o
    → (u : TransferProcess) × (o ≡ some u) × TransferSteps t u
transfer-Followed t none h = absurd h
transfer-Followed t (some u) h = (u, refl, h)

pub follow_transfer :
    (s s' : Store) (pid : String) (t : TransferProcess)
    → StoreEvolves s s'
    → find transfer_key pid s.transfer_processes ≡ some t
    → (u : TransferProcess) × (find transfer_key pid s'.transfer_processes ≡ some u)
      × TransferSteps t u
follow_transfer s s' pid t h e = transfer-Followed t _ (
    subst (λ o. RowEvolves transfer_life o (find transfer_key pid s'.transfer_processes)) e
      (h.transfer_processes pid))
