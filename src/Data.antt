-- ===== src/Data.antt =====
-- The data endpoint: internal/dsp/data_handler.go. What `parseRangeStart` answers to the request's
-- Range header is an argument, and so is the content of each file, `none` where it does not open.
pub mod Laws
pub mod Access
use dataspace_in_a_box.Base.{
  ℕ, String, Bool, true, false, not, Option, none, some, List, [], ◌∷◌, ◌==◌, ltb, leb, length,
  take, drop, if◌then◌else◌,
}
use dataspace_in_a_box.Config.{Dataset, Config, find_configured_dataset}
use dataspace_in_a_box.Message.{
  Reason, Reply, refusal, internal_error, transfer_error, unknown_id, transfer_not_started,
  no_data_configured, window_closed, range_beyond_end,
}
use dataspace_in_a_box.Store.Rows.{Agreement}
use dataspace_in_a_box.Action.{
  Result, ok, err, Act, pure, return_now, time_now, write_reply, require, or_500, or_reply, ◌>>=◌,
  ◌>>◌,
}
use dataspace_in_a_box.Envelope.{Request, refuse_if_not_party}
use dataspace_in_a_box.Negotiation.Decision.{is_valid}
use dataspace_in_a_box.Transfer.State.{started, same_state}
use dataspace_in_a_box.Transfer.Sequence.{servable_as_provider}
use dataspace_in_a_box.Store.Agreements.{get_agreement}
use dataspace_in_a_box.Store.Transfers.{get_transfer}

-- What is streamed: the whole file, the rest of it from a first byte (with the size of the file), or
-- the beginning of it before the connection is cut on purpose.
pub data DataAnswer : Type 0 where
  whole : List ℕ → DataAnswer
  partial : ℕ → ℕ → List ℕ → DataAnswer
  interrupted : List ℕ → DataAnswer

unfoldable pub dataset_for : Config → Result (Option Agreement) → Option Dataset
dataset_for cfg (ok (some a)) =
    if servable_as_provider a then find_configured_dataset cfg a.dataset_id else none
dataset_for cfg (ok none) = none
dataset_for cfg (err x) = none

abbrev pub conflict : Reason → Reply
conflict reason = refusal 409 (transfer_error reason)

unfoldable pub serve_content : Dataset → Option ℕ → List ℕ → Act DataAnswer
serve_content ds (some start) content =
    if leb (length content) start
    then (do write_reply (refusal 416 (transfer_error range_beyond_end)); return_now)
    else pure (partial start (length content) (drop start content))
serve_content ds none content =
    if ltb 0 ds.simulate_interrupt_after_bytes
    then pure (interrupted (take ds.simulate_interrupt_after_bytes content))
    else pure (whole content)

unfoldable pub handle_data :
    Config → Request → Option ℕ → (String → Option (List ℕ)) → Act DataAnswer
handle_data cfg r range files = do
  found ← get_transfer r.id
  row ← or_500 found
  t ← or_reply row (refusal 404 (transfer_error unknown_id))
  refuse_if_not_party transfer_error cfg r t.counterparty_id
  require (same_state t.state started) (conflict transfer_not_started)
  cited ← get_agreement t.agreement_id
  ds ← or_reply (dataset_for cfg cited) (conflict no_data_configured)
  now ← time_now
  require (is_valid ds now) (conflict window_closed)
  require (not (ds.source_file == "")) (conflict no_data_configured)
  content ← or_reply (files ds.source_file) internal_error
  serve_content ds range content
