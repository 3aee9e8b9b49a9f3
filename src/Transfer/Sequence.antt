-- ===== src/Transfer/Sequence.antt =====
-- What the configuration says about a transfer: internal/dsp/transfer_handler.go.
use dataspace_in_a_box.Base.{
  String, Bool, true, false, not, ◌&&◌, ◌||◌, Option, none, some, List, [], ◌∷◌, ◌==◌,
  if◌then◌else◌,
}
use dataspace_in_a_box.Config.{Dataset, Config, TransferPolicy, ConsumerTransferPolicy}
use dataspace_in_a_box.Store.Rows.{Origin, Agreement}
use dataspace_in_a_box.Transfer.State.{TransferState, started}

-- An agreement in which this connector is the consumer is never served.
unfoldable pub servable_as_provider : Agreement → Bool
servable_as_provider a = elim a.origin [ Origin.agreed ↦ false | _ ↦ true ]

unfoldable pub sequence_of_policy : List TransferPolicy → String → Option (List TransferState)
sequence_of_policy [] agreement_id = none
sequence_of_policy (p ∷ ps) agreement_id =
    if p.agreement_id == agreement_id then some p.sequence else sequence_of_policy ps agreement_id

-- A dataset without a sequence of its own is passed over.
unfoldable pub sequence_of_dataset : List Dataset → String → Option (List TransferState)
sequence_of_dataset [] dataset_id = none
sequence_of_dataset (d ∷ ds) dataset_id =
    let rest = sequence_of_dataset ds dataset_id in
    if d.id == dataset_id
    then elim d.transfer_sequence [ none ↦ rest | some states ↦ some states ]
    else rest

unfoldable pub resolve_transfer_sequence : Config → String → String → List TransferState
resolve_transfer_sequence cfg agreement_id dataset_id =
    elim (sequence_of_policy cfg.transfer_policies agreement_id) [
      | some states ↦ states
      | none ↦ elim (sequence_of_dataset cfg.datasets dataset_id) [
        | some states ↦ states
        | none ↦ started ∷ []
      ]
    ]

unfoldable pub after_or_default : Option TransferState → TransferState
after_or_default none = started
after_or_default (some state) = state

unfoldable pub resolve_consumer_transfer_policy_in :
    List ConsumerTransferPolicy → String → TransferState × List TransferState
resolve_consumer_transfer_policy_in [] agreement_id = (started, [])
resolve_consumer_transfer_policy_in (p ∷ ps) agreement_id =
    if p.agreement_id == agreement_id
    then (after_or_default p.after, p.sequence)
    else resolve_consumer_transfer_policy_in ps agreement_id

unfoldable pub resolve_consumer_transfer_policy :
    Config → String → TransferState × List TransferState
resolve_consumer_transfer_policy cfg agreement_id =
    resolve_consumer_transfer_policy_in cfg.consumer_transfer_policies agreement_id

unfoldable pub has_source_in : List Dataset → String → Bool
has_source_in [] dataset_id = false
has_source_in (d ∷ ds) dataset_id =
    d.id == dataset_id && not (d.source_file == "") || has_source_in ds dataset_id
