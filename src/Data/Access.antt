-- ===== src/Data/Access.antt =====
-- What has to hold for the data endpoint to serve.
use dataspace_in_a_box.Base.{
  ℕ, suc, String, ◌≡◌, ◌≢◌, inl, inr, true, false, Option, some, List, ◌==◌, eq_iff, Bool-cases,
  Option-cases, arith,
}
use dataspace_in_a_box.Config.{Dataset, Config, auth_required, find_configured_dataset}
use dataspace_in_a_box.Store.Table.{find}
use dataspace_in_a_box.Store.Rows.{
  Origin, Agreement, TransferProcess, Store, agreement_key, transfer_key,
}
use dataspace_in_a_box.Store.Agreements.{get_agreement, select_agreement}
use dataspace_in_a_box.Store.Transfers.{get_transfer, select_transfer}
use dataspace_in_a_box.Action.{
  Env, World, ret, halt, pure, return_now, db, time_now, write_reply, continue, require, or_500,
  or_reply, ◌>>=◌,
}
use dataspace_in_a_box.Envelope.{Request, is_party, refuse_if_not_party}
use dataspace_in_a_box.Negotiation.Decision.{is_valid}
use dataspace_in_a_box.Negotiation.Decision.Laws.{Valid, is_valid_iff}
use dataspace_in_a_box.Transfer.State.{started, same_state, same_state_iff}
use dataspace_in_a_box.Transfer.Sequence.{servable_as_provider}
use dataspace_in_a_box.Transfer.Refusal.{servable_origin}
use dataspace_in_a_box.Data.{DataAnswer, dataset_for, handle_data}

-- The databases that the two look-ups meet.
abbrev pub first_store : Env → World → Store
first_store e w = e.others w.tick w.store

abbrev pub second_store : Env → World → Store
second_store e w = e.others (suc w.tick) (first_store e w)

-- The transfer is STARTED and the caller's, its agreement is recorded, makes this connector the
-- provider and is for a configured dataset, and that dataset has a file and is still valid.
pub record Served (cfg : Config) (r : Request) (files : String → Option (List ℕ)) (e : Env)
    (w : World) : Type 0 where
  pub transfer : TransferProcess
  pub found : find transfer_key r.id (first_store e w).transfer_processes ≡ some transfer
  pub party : auth_required cfg ≡ true → r.issuer ≡ transfer.counterparty_id
  pub in_state : transfer.state ≡ started
  pub agreement : Agreement
  pub cited :
      find agreement_key transfer.agreement_id (second_store e w).agreements ≡ some agreement
  pub origin : agreement.origin ≢ Origin.agreed
  pub dataset : Dataset
  pub configured : find_configured_dataset cfg agreement.dataset_id ≡ some dataset
  pub valid : Valid dataset (e.now (suc (suc w.tick)))
  pub content : List ℕ
  pub file : files dataset.source_file ≡ some content

party_issuer :
    (cfg : Config) (r : Request) (stored : String)
    → is_party cfg r stored ≡ true
    → auth_required cfg ≡ true
    → r.issuer ≡ stored
unfolding is_party
party_issuer cfg r stored h auth = (eq_iff r.issuer stored).0 (ground arith)

halted : {A : Type 0} (P : Type 0) (a : A) → halt ≡ ret a → P
halted P a h = absurd (ground arith)

module _ (cfg : Config) (r : Request) (range : Option ℕ) (files : String → Option (List ℕ))
    (e : Env) (w : World) (answer : DataAnswer) where
  Goal : Type 0
  Goal = (handle_data cfg r range files e w).0 ≡ ret answer → Served cfg r files e w

  module _ (t : TransferProcess) (f : e.fails w.tick ≡ false)
      (g : find transfer_key r.id (first_store e w).transfer_processes ≡ some t)
      (party : is_party cfg r t.counterparty_id ≡ true)
      (state : same_state t.state started ≡ true) where
    by_agreement :
        (a : Agreement) (ds : Dataset)
        → e.fails (suc w.tick) ≡ false
        → find agreement_key t.agreement_id (second_store e w).agreements ≡ some a
        → servable_as_provider a ≡ true
        → find_configured_dataset cfg a.dataset_id ≡ some ds
        → Goal
    unfolding Goal handle_data get_transfer select_transfer get_agreement select_agreement db or_500
        or_reply refuse_if_not_party require time_now pure return_now write_reply continue ◌>>=◌
        dataset_for
    by_agreement a ds f' g' servable configured =
        elim (Bool-cases (is_valid ds (e.now (suc (suc w.tick))))) [
          | inr v ↦ rw (f, g, party, state, f', g', servable, configured, v) (halted _ answer)
          | inl v ↦ elim (Bool-cases (ds.source_file == "")) [
            | inl s ↦ rw (f, g, party, state, f', g', servable, configured, v, s) (halted _ answer)
            | inr s ↦ elim (Option-cases (files ds.source_file)) [
              | inl c ↦
                  rw (f, g, party, state, f', g', servable, configured, v, s, c) (halted _ answer)
              | inr (content, c) ↦ λ h. record {
                transfer = t;
                found = g;
                party = party_issuer cfg r t.counterparty_id party;
                in_state = (same_state_iff t.state started).0 state;
                agreement = a;
                cited = g';
                origin = servable_origin a servable;
                dataset = ds;
                configured = configured;
                valid = (is_valid_iff ds (e.now (suc (suc w.tick)))).0 v;
                content = content;
                file = c;
              }
            ]
          ]
        ]

    by_transfer : Goal
    unfolding Goal handle_data get_transfer select_transfer get_agreement select_agreement db or_500
        or_reply refuse_if_not_party require time_now pure return_now write_reply continue ◌>>=◌
        dataset_for
    by_transfer = elim (Bool-cases (e.fails (suc w.tick))) [
      | inl f' ↦ rw (f, g, party, state, f') (halted _ answer)
      | inr f' ↦
          elim (Option-cases (find agreement_key t.agreement_id (second_store e w).agreements)) [
            | inl g' ↦ rw (f, g, party, state, f', g') (halted _ answer)
            | inr (a, g') ↦ elim (Bool-cases (servable_as_provider a)) [
              | inr s ↦ rw (f, g, party, state, f', g', s) (halted _ answer)
              | inl s ↦ elim (Option-cases (find_configured_dataset cfg a.dataset_id)) [
                | inl c ↦ rw (f, g, party, state, f', g', s, c) (halted _ answer)
                | inr (ds, c) ↦ by_agreement a ds f' g' s c
              ]
            ]
          ]
    ]

  -- Data is served only under all the conditions, whatever the environment does: the transfer that
  -- the first look-up found is STARTED, and with authentication on it is the caller's; the agreement
  -- that the second found makes this connector the provider, and is for a configured dataset that has
  -- a file and was valid when the clock was read.
  pub handle_data-Served :
      (handle_data cfg r range files e w).0 ≡ ret answer → Served cfg r files e w
  unfolding Goal handle_data get_transfer select_transfer db or_500 or_reply refuse_if_not_party
      require pure return_now write_reply continue ◌>>=◌
  handle_data-Served = elim (Bool-cases (e.fails w.tick)) [
    | inl f ↦ rw f (halted _ answer)
    | inr f ↦ elim (Option-cases (find transfer_key r.id (first_store e w).transfer_processes)) [
      | inl g ↦ rw (f, g) (halted _ answer)
      | inr (t, g) ↦ elim (Bool-cases (is_party cfg r t.counterparty_id)) [
        | inr p ↦ rw (f, g, p) (halted _ answer)
        | inl p ↦ elim (Bool-cases (same_state t.state started)) [
          | inr s ↦ rw (f, g, p, s) (halted _ answer)
          | inl s ↦ by_transfer t f g p s
        ]
      ]
    ]
  ]
