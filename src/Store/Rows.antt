-- ===== src/Store/Rows.antt =====
-- The rows of internal/store/store.go. Times are numbers of nanoseconds; `none` is Go's zero time.
use dataspace_in_a_box.Base.{ℕ, String, Bool, Option, none, List, []}
use dataspace_in_a_box.Negotiation.State.{NegotiationState}
use dataspace_in_a_box.Transfer.State.{TransferState}

pub record Negotiation : Type 0 where
  pub provider_pid : String
  pub consumer_pid : String
  pub state : NegotiationState
  pub dataset_id : String
  pub offer_id : String
  pub callback_address : String
  pub rerequested : Bool
  pub counterparty_id : String
  pub created_at : ℕ
  pub updated_at : ℕ

pub record ConsumerNegotiation : Type 0 where
  pub consumer_pid : String
  pub provider_pid : String
  pub provider_base_url : String
  pub state : NegotiationState
  pub dataset_id : String
  pub offer_id : String
  pub counterparty_id : String
  pub created_at : ℕ
  pub updated_at : ℕ

pub data Origin : Type 0 where
  negotiated imported agreed : Origin

pub record Agreement : Type 0 where
  pub agreement_id : String
  pub dataset_id : String
  pub consumer_pid : String
  pub origin : Origin
  pub counterparty_id : String
  pub created_at : ℕ

pub record TransferProcess : Type 0 where
  pub provider_pid : String
  pub consumer_pid : String
  pub agreement_id : String
  pub state : TransferState
  pub callback_address : String
  pub format : String
  pub counterparty_id : String
  pub created_at : ℕ
  pub updated_at : ℕ

pub record ConsumerTransfer : Type 0 where
  pub consumer_pid : String
  pub provider_pid : String
  pub provider_base_url : String
  pub agreement_id : String
  pub format : String
  pub state : TransferState
  pub counterparty_id : String
  pub expected_bytes : ℕ
  pub received_bytes : ℕ
  pub data_path : String
  pub data_completed_at : Option ℕ
  pub data_error : String
  pub created_at : ℕ
  pub updated_at : ℕ

-- The tables of one database file; `roster_version` has one row at most.
pub record Store : Type 0 where
  pub negotiations : List Negotiation
  pub consumer_negotiations : List ConsumerNegotiation
  pub agreements : List Agreement
  pub transfer_processes : List TransferProcess
  pub consumer_transfer_processes : List ConsumerTransfer
  pub roster_version : Option ℕ

-- A fresh database.
abbrev pub empty_store : Store
empty_store = record {
  negotiations = [];
  consumer_negotiations = [];
  agreements = [];
  transfer_processes = [];
  consumer_transfer_processes = [];
  roster_version = none;
}

abbrev pub negotiation_key : Negotiation → String
negotiation_key n = n.provider_pid

abbrev pub consumer_negotiation_key : ConsumerNegotiation → String
consumer_negotiation_key n = n.consumer_pid

abbrev pub agreement_key : Agreement → String
agreement_key a = a.agreement_id

abbrev pub transfer_key : TransferProcess → String
transfer_key t = t.provider_pid

abbrev pub consumer_transfer_key : ConsumerTransfer → String
consumer_transfer_key t = t.consumer_pid
