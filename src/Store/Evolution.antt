-- ===== src/Store/Evolution.antt =====
-- How the database may change while the connector runs: no row is deleted, the parties and terms
-- of an exchange stay, agreements are immutable, and states follow the protocol's moves.
use dataspace_in_a_box.Base.{ℕ, String, ◌≡◌, refl, ◌∙◌, true, List}
use dataspace_in_a_box.Store.Rows.{
  Negotiation, ConsumerNegotiation, Agreement, TransferProcess, ConsumerTransfer, Store,
  negotiation_key, consumer_negotiation_key, agreement_key, transfer_key, consumer_transfer_key,
}
use dataspace_in_a_box.Store.Table.Evolution.{Life, Evolves, Evolves-refl, Evolves-trans}
use dataspace_in_a_box.Negotiation.State as NegotiationStates
use dataspace_in_a_box.Transfer.State as TransferStates

abbrev negotiation_terms : Negotiation → String × String × String × String × String × ℕ
negotiation_terms n =
    (n.consumer_pid, n.dataset_id, n.offer_id, n.callback_address, n.counterparty_id, n.created_at)

pub record NegotiationSteps (n m : Negotiation) : Type 0 where
  pub path : NegotiationStates.◌⟶*◌ n.state m.state
  pub terms : negotiation_terms n ≡ negotiation_terms m
  -- the one re-request, once taken, stays taken
  pub flag : n.rerequested ≡ true → m.rerequested ≡ true

abbrev pub negotiation_life : Life Negotiation
negotiation_life = record {
  Starts = λ n. NegotiationStates.◌⟶*◌ NegotiationStates.requested n.state;
  Steps = NegotiationSteps;
  steps_refl = λ n. record { path = NegotiationStates.here; terms = refl; flag = λ h. h };
  steps_trans = λ n m k p q. record {
    path = NegotiationStates.⟶*-trans p.path q.path;
    terms = p.terms ∙ q.terms;
    flag = λ h. q.flag (p.flag h);
  };
  starts_steps = λ n m st p. NegotiationStates.⟶*-trans st p.path;
}

abbrev consumer_terms : ConsumerNegotiation → String × String × String × String × ℕ
consumer_terms n = (n.provider_base_url, n.dataset_id, n.offer_id, n.counterparty_id, n.created_at)

pub record ConsumerNegotiationSteps (n m : ConsumerNegotiation) : Type 0 where
  pub path : NegotiationStates.◌⟶*◌ n.state m.state
  pub terms : consumer_terms n ≡ consumer_terms m

abbrev pub consumer_negotiation_life : Life ConsumerNegotiation
consumer_negotiation_life = record {
  Starts = λ n. NegotiationStates.◌⟶*◌ NegotiationStates.requested n.state;
  Steps = ConsumerNegotiationSteps;
  steps_refl = λ n. record { path = NegotiationStates.here; terms = refl };
  steps_trans = λ n m k p q. record {
    path = NegotiationStates.⟶*-trans p.path q.path;
    terms = p.terms ∙ q.terms;
  };
  starts_steps = λ n m st p. NegotiationStates.⟶*-trans st p.path;
}

abbrev pub agreement_life : Life Agreement
agreement_life = record {
  Starts = λ a. Unit;
  Steps = λ a b. a ≡ b;
  steps_refl = λ a. refl;
  steps_trans = λ a b c p q. p ∙ q;
  starts_steps = λ a b st p. tt;
}

abbrev transfer_terms : TransferProcess → String × String × String × String × String × ℕ
transfer_terms t =
    (t.consumer_pid, t.agreement_id, t.callback_address, t.format, t.counterparty_id, t.created_at)

pub record TransferSteps (t u : TransferProcess) : Type 0 where
  pub path : TransferStates.◌⟶*◌ t.state u.state
  pub terms : transfer_terms t ≡ transfer_terms u

abbrev pub transfer_life : Life TransferProcess
transfer_life = record {
  Starts = λ t. TransferStates.◌⟶*◌ TransferStates.requested t.state;
  Steps = TransferSteps;
  steps_refl = λ t. record { path = TransferStates.here; terms = refl };
  steps_trans = λ t u v p q. record {
    path = TransferStates.⟶*-trans p.path q.path;
    terms = p.terms ∙ q.terms;
  };
  starts_steps = λ t u st p. TransferStates.⟶*-trans st p.path;
}

abbrev consumer_transfer_terms : ConsumerTransfer → String × String × String × String × ℕ
consumer_transfer_terms t =
    (t.provider_base_url, t.agreement_id, t.format, t.counterparty_id, t.created_at)

pub record ConsumerTransferSteps (t u : ConsumerTransfer) : Type 0 where
  pub path : TransferStates.◌⟶*◌ t.state u.state
  pub terms : consumer_transfer_terms t ≡ consumer_transfer_terms u

abbrev pub consumer_transfer_life : Life ConsumerTransfer
consumer_transfer_life = record {
  Starts = λ t. TransferStates.◌⟶*◌ TransferStates.requested t.state;
  Steps = ConsumerTransferSteps;
  steps_refl = λ t. record { path = TransferStates.here; terms = refl };
  steps_trans = λ t u v p q. record {
    path = TransferStates.⟶*-trans p.path q.path;
    terms = p.terms ∙ q.terms;
  };
  starts_steps = λ t u st p. TransferStates.⟶*-trans st p.path;
}

pub record StoreEvolves (s s' : Store) : Type 0 where
  pub negotiations : Evolves negotiation_life negotiation_key s.negotiations s'.negotiations
  pub consumer_negotiations :
      Evolves consumer_negotiation_life consumer_negotiation_key s.consumer_negotiations
        s'.consumer_negotiations
  pub agreements : Evolves agreement_life agreement_key s.agreements s'.agreements
  pub transfer_processes :
      Evolves transfer_life transfer_key s.transfer_processes s'.transfer_processes
  pub consumer_transfer_processes :
      Evolves consumer_transfer_life consumer_transfer_key s.consumer_transfer_processes
        s'.consumer_transfer_processes
  pub roster_version : s.roster_version ≡ s'.roster_version

pub StoreEvolves-refl : (s : Store) → StoreEvolves s s
StoreEvolves-refl s = record {
  negotiations = Evolves-refl negotiation_life negotiation_key s.negotiations;
  consumer_negotiations =
      Evolves-refl consumer_negotiation_life consumer_negotiation_key s.consumer_negotiations;
  agreements = Evolves-refl agreement_life agreement_key s.agreements;
  transfer_processes = Evolves-refl transfer_life transfer_key s.transfer_processes;
  consumer_transfer_processes =
      Evolves-refl consumer_transfer_life consumer_transfer_key s.consumer_transfer_processes;
  roster_version = refl;
}

pub StoreEvolves-trans : (a b c : Store) → StoreEvolves a b → StoreEvolves b c → StoreEvolves a c
StoreEvolves-trans a b c p q = record {
  negotiations =
      Evolves-trans negotiation_life negotiation_key a.negotiations b.negotiations c.negotiations
        p.negotiations q.negotiations;
  consumer_negotiations =
      Evolves-trans consumer_negotiation_life consumer_negotiation_key a.consumer_negotiations
        b.consumer_negotiations c.consumer_negotiations p.consumer_negotiations
        q.consumer_negotiations;
  agreements =
      Evolves-trans agreement_life agreement_key a.agreements b.agreements c.agreements p.agreements
        q.agreements;
  transfer_processes =
      Evolves-trans transfer_life transfer_key a.transfer_processes b.transfer_processes
        c.transfer_processes p.transfer_processes q.transfer_processes;
  consumer_transfer_processes =
      Evolves-trans consumer_transfer_life consumer_transfer_key a.consumer_transfer_processes
        b.consumer_transfer_processes c.consumer_transfer_processes p.consumer_transfer_processes
        q.consumer_transfer_processes;
  roster_version = p.roster_version ∙ q.roster_version;
}

-- A change of one table.
module _ (s : Store) where
  pub change_negotiations :
      (rows : List Negotiation)
      → Evolves negotiation_life negotiation_key s.negotiations rows
      → StoreEvolves s (record s { negotiations = rows })
  change_negotiations rows h =
      let same = StoreEvolves-refl s in
      record {
        negotiations = h;
        consumer_negotiations = same.consumer_negotiations;
        agreements = same.agreements;
        transfer_processes = same.transfer_processes;
        consumer_transfer_processes = same.consumer_transfer_processes;
        roster_version = refl;
      }

  pub change_consumer_negotiations :
      (rows : List ConsumerNegotiation)
      → Evolves consumer_negotiation_life consumer_negotiation_key s.consumer_negotiations rows
      → StoreEvolves s (record s { consumer_negotiations = rows })
  change_consumer_negotiations rows h =
      let same = StoreEvolves-refl s in
      record {
        negotiations = same.negotiations;
        consumer_negotiations = h;
        agreements = same.agreements;
        transfer_processes = same.transfer_processes;
        consumer_transfer_processes = same.consumer_transfer_processes;
        roster_version = refl;
      }

  pub change_agreements :
      (rows : List Agreement)
      → Evolves agreement_life agreement_key s.agreements rows
      → StoreEvolves s (record s { agreements = rows })
  change_agreements rows h =
      let same = StoreEvolves-refl s in
      record {
        negotiations = same.negotiations;
        consumer_negotiations = same.consumer_negotiations;
        agreements = h;
        transfer_processes = same.transfer_processes;
        consumer_transfer_processes = same.consumer_transfer_processes;
        roster_version = refl;
      }

  pub change_transfer_processes :
      (rows : List TransferProcess)
      → Evolves transfer_life transfer_key s.transfer_processes rows
      → StoreEvolves s (record s { transfer_processes = rows })
  change_transfer_processes rows h =
      let same = StoreEvolves-refl s in
      record {
        negotiations = same.negotiations;
        consumer_negotiations = same.consumer_negotiations;
        agreements = same.agreements;
        transfer_processes = h;
        consumer_transfer_processes = same.consumer_transfer_processes;
        roster_version = refl;
      }

  pub change_consumer_transfer_processes :
      (rows : List ConsumerTransfer)
      → Evolves consumer_transfer_life consumer_transfer_key s.consumer_transfer_processes rows
      → StoreEvolves s (record s { consumer_transfer_processes = rows })
  change_consumer_transfer_processes rows h =
      let same = StoreEvolves-refl s in
      record {
        negotiations = same.negotiations;
        consumer_negotiations = same.consumer_negotiations;
        agreements = same.agreements;
        transfer_processes = same.transfer_processes;
        consumer_transfer_processes = h;
        roster_version = refl;
      }
