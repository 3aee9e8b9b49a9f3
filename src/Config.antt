-- ===== src/Config.antt =====
-- The part of internal/config/config.go that the protocol code reads. A policy word is one of
-- those that `validate` admits, and the empty text is `unset`; a time is a number of nanoseconds.
pub mod Settings
pub mod Loaded
use dataspace_in_a_box.Base.{
  ℕ, String, Bool, true, Option, none, some, List, [], ◌∷◌, ◌==◌, if◌then◌else◌,
}
use dataspace_in_a_box.Transfer.State.{TransferState}

pub record Dataset : Type 0 where
  pub id : String
  pub validity_until : Option ℕ
  pub source_file : String
  pub terminate_on_verify : Bool
  pub transfer_sequence : Option (List TransferState)
  pub simulate_interrupt_after_bytes : ℕ

pub data OnOffer : Type 0 where
  unset accept passive reject counter : OnOffer

pub data OnAgreement : Type 0 where
  unset verify reject : OnAgreement

pub data OnIdle : Type 0 where
  unset wait abandon : OnIdle

pub record ConsumerPolicy : Type 0 where
  pub dataset_id : String
  pub on_offer : OnOffer
  pub on_agreement : OnAgreement
  pub on_idle : OnIdle

pub record TransferPolicy : Type 0 where
  pub agreement_id : String
  pub sequence : List TransferState

-- `after` is `none` where the configuration leaves it empty.
pub record ConsumerTransferPolicy : Type 0 where
  pub agreement_id : String
  pub after : Option TransferState
  pub sequence : List TransferState

pub record Config : Type 0 where
  pub participant_id : String
  pub public_url : String
  pub require_auth : Option Bool
  pub data_dir : String
  pub max_download_bytes : ℕ
  pub datasets : List Dataset
  pub consumer_policies : List ConsumerPolicy
  pub transfer_policies : List TransferPolicy
  pub consumer_transfer_policies : List ConsumerTransferPolicy

-- Absent means on.
unfoldable pub auth_required : Config → Bool
auth_required c = elim c.require_auth [ none ↦ true | some required ↦ required ]

unfoldable pub find_dataset_in : List Dataset → String → Option Dataset
find_dataset_in [] id = none
find_dataset_in (d ∷ ds) id = if d.id == id then some d else find_dataset_in ds id

unfoldable pub find_configured_dataset : Config → String → Option Dataset
unfolding find_dataset_in
find_configured_dataset cfg id = find_dataset_in cfg.datasets id
