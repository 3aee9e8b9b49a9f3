-- ===== src/Negotiation/Accepting.antt =====
-- What a new request that passes every check leads to.
use dataspace_in_a_box.Base.{
  ℕ, suc, String, ◌≡◌, refl, ◌∙◌, true, false, none, some, [], ◌∷◌, ◌++◌, ◌==◌, eq_refl, contains,
}
use dataspace_in_a_box.Config.{Config}
use dataspace_in_a_box.Message.{refusal, negotiation_document}
use dataspace_in_a_box.Task.{dispatch}
use dataspace_in_a_box.Store.Table.{find}
use dataspace_in_a_box.Store.Table.Laws.{find-insert, insert_free}
use dataspace_in_a_box.Store.Rows.{Negotiation, Store, negotiation_key}
use dataspace_in_a_box.Store.Negotiations.{inserted, insert_negotiation, create}
use dataspace_in_a_box.Action.{
  Env, World, pure, return_now, db, time_now, new_uuid, write_reply, spawn, continue, require,
  or_500, or_reply, ◌>>=◌,
}
use dataspace_in_a_box.Envelope.{Request, context_url, check_envelope}
use dataspace_in_a_box.Negotiation.State.{requested}
use dataspace_in_a_box.Negotiation.Decision.{decide_initial_request}
use dataspace_in_a_box.Negotiation.Build.{build_negotiation_state_document}
use dataspace_in_a_box.Negotiation.Provider.{RequestMessage, handle_contract_request}

-- A request that passes the checks of its own fields.
pub record Complete (msg : RequestMessage) : Type 0 where
  pub context : contains msg.context context_url ≡ true
  pub type : (msg.type == "ContractRequestMessage") ≡ true
  pub consumer_pid : (msg.consumer_pid == "") ≡ false
  pub offer_id : (msg.offer_id == "") ≡ false
  pub offer_target : (msg.offer_target == "") ≡ false
  pub callback_address : (msg.callback_address == "") ≡ false

-- The row that a request asks for.
abbrev pub row_of : Request → RequestMessage → String → ℕ → Negotiation
row_of r msg pid now = record {
  provider_pid = pid;
  consumer_pid = msg.consumer_pid;
  state = requested;
  dataset_id = msg.offer_target;
  offer_id = msg.offer_id;
  callback_address = msg.callback_address;
  rerequested = false;
  counterparty_id = r.issuer;
  created_at = now;
  updated_at = now;
}

-- From the world before the call to the one after: the row is there, the answer names it, and the
-- goroutine that carries out the decision for it is started.
pub record Accepted (cfg : Config) (n : Negotiation) (w w' : World) : Type 0 where
  pub created : find negotiation_key n.provider_pid w'.store.negotiations ≡ some n
  pub replies :
      w'.replies
      ≡ w.replies ++ refusal 201 (negotiation_document n.provider_pid n.consumer_pid requested) ∷ []
  pub spawned :
      w'.spawned
      ≡ w.spawned
        ++ dispatch n (decide_initial_request cfg n.dataset_id n.offer_id n.created_at) ∷ []
  pub sent : w'.sent ≡ w.sent

module _ (cfg : Config) (r : Request) (msg : RequestMessage) (complete : Complete msg) (e : Env)
    (w : World) (pid : String) (uuid : e.uuid w.tick ≡ some pid)
    (sound : e.fails (suc (suc w.tick)) ≡ false) where
  -- A complete request, where a pid is generated that is free at the INSERT and the INSERT does not
  -- fail: the row is created in REQUESTED with the caller as its counterparty, the answer is 201
  -- with its document, one goroutine is started with the decision of that moment, and nothing is
  -- pushed yet.
  pub handle_contract_request-Accepted :
      find negotiation_key pid (e.others (suc (suc w.tick)) w.store).negotiations ≡ none
      → Accepted cfg
          (row_of r msg pid (e.now (suc w.tick)))
          w
          (handle_contract_request cfg r (some msg) e w).1
  unfolding handle_contract_request check_envelope create insert_negotiation inserted db time_now
      new_uuid or_500 or_reply require pure return_now write_reply spawn continue ◌>>=◌
      build_negotiation_state_document
  handle_contract_request-Accepted free =
      let n = row_of r msg pid (e.now (suc w.tick)) in
      let s : Store = e.others (suc (suc w.tick)) w.store in
      let (rows, h) = insert_free negotiation_key n s.negotiations free in
      rw
        (
          complete.context, complete.type, complete.consumer_pid, complete.offer_id,
          complete.offer_target, complete.callback_address, uuid, sound, h,
        )
        (record {
          created = find-insert negotiation_key pid n s.negotiations rows h ∙ rw (eq_refl pid) refl;
          replies = refl;
          spawned = refl;
          sent = refl;
        })
