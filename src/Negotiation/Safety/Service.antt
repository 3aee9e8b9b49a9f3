-- ===== src/Negotiation/Safety/Service.antt =====
-- Every negotiation endpoint keeps the guarantee, and what that means for single rows.
use dataspace_in_a_box.Base.{String, ◌≡◌, sym, some}
use dataspace_in_a_box.Store.Table.{find}
use dataspace_in_a_box.Store.Rows.{Negotiation, negotiation_key}
use dataspace_in_a_box.Action.{Env, World}
use dataspace_in_a_box.Store.Follow.{Followed, follow_negotiation}
use dataspace_in_a_box.Guarantee.{Safe, Rely}
use dataspace_in_a_box.Envelope.{Request}
use dataspace_in_a_box.Initiate.{Connector}
use dataspace_in_a_box.Negotiation.State.{IsTerminal, IsTerminal-⟶*}
use dataspace_in_a_box.Negotiation.Service.{
  Call, contract_request, re_request, event, verification, termination, get_negotiation, initiate,
  offers, agreement, serve,
}
use dataspace_in_a_box.Negotiation.Safety.Provider.{
  Safe-handle_contract_request, Safe-handle_re_request, Safe-handle_verification,
}
use dataspace_in_a_box.Negotiation.Safety.Consumer.{
  Safe-handle_initiate, Safe-handle_offers, Safe-handle_agreement,
}
use dataspace_in_a_box.Negotiation.Safety.Endpoints.{
  Safe-handle_event, Safe-handle_termination, Safe-handle_get_negotiation,
}

-- Every negotiation endpoint is safe: whatever the other goroutines do between its effects, so long
-- as they too keep the guarantee, and whichever of its calls fail, it deletes no row, keeps the
-- parties and terms of each exchange and each agreement, moves each state only along the protocol,
-- and starts only goroutines with an admissible argument.
pub Safe-serve : (h : Connector) (r : Request) (call : Call) → Safe (serve h r call)
unfolding serve
Safe-serve h r (contract_request body) = Safe-handle_contract_request h.cfg r body
Safe-serve h r (re_request body) = Safe-handle_re_request h.cfg r body
Safe-serve h r (event body) = Safe-handle_event h.cfg r body
Safe-serve h r (verification body) = Safe-handle_verification h.cfg r body
Safe-serve h r (termination body) = Safe-handle_termination h.cfg r body
Safe-serve h r get_negotiation = Safe-handle_get_negotiation h.cfg r
Safe-serve h r (initiate body) = Safe-handle_initiate h body
Safe-serve h r (offers body) = Safe-handle_offers h.cfg r body
Safe-serve h r (agreement body) = Safe-handle_agreement h.cfg r body

module _ (h : Connector) (r : Request) (call : Call) (e : Env) (w : World) (rely : Rely e) where
  -- A provider-role negotiation that is there before a call is there after it, as a step of its
  -- life.
  pub serve-keeps_terms :
      (pid : String) (n : Negotiation)
      → find negotiation_key pid w.store.negotiations ≡ some n
      → Followed n (find negotiation_key pid (serve h r call e w).1.store.negotiations)
  serve-keeps_terms pid n found =
      follow_negotiation w.store _ pid n ((Safe-serve h r call).at e rely w).store found

  -- A provider-role negotiation that is FINALIZED or TERMINATED before a call is there after it, in
  -- the same state: for every endpoint, every body, every failing call and any interference that
  -- keeps the guarantee.
  pub serve-keeps_terminal :
      (pid : String) (n : Negotiation)
      → find negotiation_key pid w.store.negotiations ≡ some n
      → IsTerminal n.state
      → (m : Negotiation) × (find negotiation_key pid (serve h r call e w).1.store.negotiations
          ≡ some m)
        × (m.state ≡ n.state)
  serve-keeps_terminal pid n found terminal =
      let f = serve-keeps_terms pid n found in
      (f.row, f.found, sym (IsTerminal-⟶* f.steps.path terminal))
