-- ===== src/Transfer/Refusal.antt =====
-- What the transfer endpoints refuse, to the last effect.
use dataspace_in_a_box.Base.{
  suc, ◌≡◌, ◌≢◌, refl, Bool, true, false, not, ◌&&◌, Option, none, some, [], ◌∷◌, ◌++◌, ◌==◌,
  contains, String, eq_iff, eq_true, eq_false, false≢true, arith, Option-cases, Bool-cases, inl,
  inr, if◌then◌else◌,
}
use dataspace_in_a_box.Config.{Config, auth_required}
use dataspace_in_a_box.Message.{
  Reply, refusal, transfer_error, unknown_agreement, not_the_provider, agreement_not_yours,
  wrong_state,
}
use dataspace_in_a_box.Store.Table.{find}
use dataspace_in_a_box.Store.Rows.{
  Origin, Agreement, TransferProcess, agreement_key, transfer_key, consumer_transfer_key,
}
use dataspace_in_a_box.Store.Agreements.{get_agreement, select_agreement}
use dataspace_in_a_box.Store.Transfers.{
  get_transfer, select_transfer, get_consumer_transfer, select_consumer_transfer,
}
use dataspace_in_a_box.Action.{
  Env, World, halt, pure, return_now, db, write_reply, continue, require, or_500, or_reply, ◌>>=◌,
}
use dataspace_in_a_box.Envelope.{
  Request, context_url, is_party, refuse_if_not_party, check_envelope,
}
use dataspace_in_a_box.Transfer.State.{
  TransferState, requested, started, completed, suspended, terminated,
  provider_inbound_start_legal_from,
}
use dataspace_in_a_box.Transfer.Sequence.{servable_as_provider}
use dataspace_in_a_box.Transfer.Provider.{
  TransferRequestBody, bad_transfer, may_cite, handle_transfer_request,
}
use dataspace_in_a_box.Transfer.Endpoints.{
  TransferEnvelope, state_of, lookup_as_provider, lookup_by_role, lookup_transfer,
  inbound_start_legal_for, apply_transition, handle_transfer_start,
}

-- A request that passes the checks of its own fields.
pub record Complete (msg : TransferRequestBody) : Type 0 where
  pub context : contains msg.context context_url ≡ true
  pub type : (msg.type == "TransferRequestMessage") ≡ true
  pub consumer_pid : (msg.consumer_pid == "") ≡ false
  pub agreement_id : (msg.agreement_id == "") ≡ false
  pub format : (msg.format == "") ≡ false
  pub callback_address : (msg.callback_address == "") ≡ false

last : (a b c : Bool) → not (a && not b && not c) ≡ true → a ≡ true → b ≡ false → c ≡ true
last a b c h p q = ground arith

-- The agreement may be used to ask this connector for the data.
abbrev pub Grants : Config → Request → Option Agreement → Type 0
Grants cfg r none = ⊥
Grants cfg r (some a) =
    (a.origin ≢ Origin.agreed)
    × (auth_required cfg ≡ true → a.counterparty_id ≢ "" → r.issuer ≡ a.counterparty_id)

origin_other : (o : Origin) → elim o [ Origin.agreed ↦ false | _ ↦ true ] ≡ true → o ≢ Origin.agreed
origin_other Origin.agreed t e = false≢true t
origin_other Origin.negotiated t e = ground arith
origin_other Origin.imported t e = ground arith

pub servable_origin : (a : Agreement) → servable_as_provider a ≡ true → a.origin ≢ Origin.agreed
unfolding servable_as_provider
servable_origin a t = origin_other a.origin t

may_cite_issuer :
    (cfg : Config) (r : Request) (a : Agreement)
    → may_cite cfg r a ≡ true
    → auth_required cfg ≡ true
    → a.counterparty_id ≢ ""
    → r.issuer ≡ a.counterparty_id
unfolding may_cite
may_cite_issuer cfg r a h auth other = (eq_iff r.issuer a.counterparty_id).0 (
    last (auth_required cfg) (a.counterparty_id == "") (r.issuer == a.counterparty_id) h auth
      (eq_false a.counterparty_id "" other))

-- What the handler answers to a complete request, by the agreement that it finds.
unfoldable pub refusal_for : Config → Request → Option Agreement → Reply
refusal_for cfg r none = bad_transfer unknown_agreement
refusal_for cfg r (some a) =
    if servable_as_provider a
    then refusal 403 (transfer_error agreement_not_yours)
    else refusal 403 (transfer_error not_the_provider)

module _ (cfg : Config) (r : Request) (msg : TransferRequestBody) (complete : Complete msg)
    (e : Env) (w : World) (sound : e.fails w.tick ≡ false) where
  -- A complete request, where the look-up of the agreement does not fail, for an agreement that is
  -- not recorded, in which this connector is the consumer, or, with authentication on, that is
  -- recorded as another participant's: one answer of 400 or 403, and nothing else. The database is
  -- as the other goroutines left it, no transfer is created and no goroutine starts.
  pub handle_transfer_request-refuses :
      (Grants cfg r (find agreement_key msg.agreement_id (e.others w.tick w.store).agreements) → ⊥)
      → handle_transfer_request cfg r (some msg) e w ≡ (
        halt,
        record w {
          tick = suc w.tick;
          store = e.others w.tick w.store;
          replies =
              w.replies
              ++ refusal_for cfg r
                  (find agreement_key msg.agreement_id (e.others w.tick w.store).agreements)
                ∷ [];
        },
      )
  unfolding handle_transfer_request check_envelope get_agreement select_agreement db or_500 or_reply
      require pure return_now write_reply continue ◌>>=◌ refusal_for
  handle_transfer_request-refuses denied =
      rw
        (
          complete.context, complete.type, complete.consumer_pid, complete.agreement_id,
          complete.format, complete.callback_address, sound,
        )
        (elim (Option-cases
          (find agreement_key msg.agreement_id (e.others w.tick w.store).agreements)) [
            | inl h ↦ rw h refl
            | inr (a, h) ↦ elim (Bool-cases (servable_as_provider a)) [
              | inr s ↦ rw h (rw s refl)
              | inl s ↦ elim (Bool-cases (may_cite cfg r a)) [
                | inr m ↦ rw h (rw s (rw m refl))
                | inl m ↦ absurd (denied (rw h (servable_origin a s, may_cite_issuer cfg r a m)))
              ]
            ]
          ])

-- A message that passes the checks of its own fields.
pub record WellTyped (msg : TransferEnvelope) : Type 0 where
  pub context : contains msg.context context_url ≡ true
  pub type : (msg.type == "TransferStartMessage") ≡ true

party-is_party :
    (cfg : Config) (r : Request) (stored : String)
    → r.issuer ≡ stored
    → is_party cfg r stored ≡ true
unfolding is_party
party-is_party cfg r stored e = ground (arith, eq_true r.issuer stored e)

not_suspended : (s : TransferState) → s ≢ suspended → provider_inbound_start_legal_from s ≡ false
unfolding provider_inbound_start_legal_from
not_suspended suspended h = absurd (h refl)
not_suspended requested h = refl
not_suspended started h = refl
not_suspended completed h = refl
not_suspended terminated h = refl

module _ (cfg : Config) (r : Request) (msg : TransferEnvelope) (typed : WellTyped msg) (e : Env)
    (w : World) (sound : e.fails w.tick ≡ false) (sound' : e.fails (suc w.tick) ≡ false) where
  -- The counterparty cannot start a transfer that this connector provides, unless it is suspended:
  -- a well-formed start of the party to the row, where the two look-ups succeed and the row is in any
  -- other state, REQUESTED included, is answered 400 and does nothing else.
  pub handle_transfer_start-refuses :
      (t : TransferProcess)
      → find consumer_transfer_key r.id (e.others w.tick w.store).consumer_transfer_processes ≡ none
      → find transfer_key r.id (e.others (suc w.tick) (e.others w.tick w.store)).transfer_processes
        ≡ some t
      → r.issuer ≡ t.counterparty_id
      → t.state ≢ suspended
      → handle_transfer_start cfg r (some msg) e w ≡ (
        halt,
        record w {
          tick = suc (suc w.tick);
          store = e.others (suc w.tick) (e.others w.tick w.store);
          replies = w.replies ++ bad_transfer wrong_state ∷ [];
        },
      )
  unfolding handle_transfer_start apply_transition lookup_transfer lookup_by_role lookup_as_provider
      get_consumer_transfer select_consumer_transfer get_transfer select_transfer
      refuse_if_not_party check_envelope inbound_start_legal_for state_of db or_500 or_reply require
      pure return_now write_reply continue ◌>>=◌
  handle_transfer_start-refuses t absent found party h =
      rw
        (
          sound,
          absent,
          sound',
          found,
          party-is_party cfg r t.counterparty_id party,
          typed.context,
          typed.type,
          not_suspended t.state h,
        )
        refl
