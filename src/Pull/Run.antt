-- ===== src/Pull/Run.antt =====
-- The pull from its start to the row that it writes.
use Prim.Native.String as Text
use dataspace_in_a_box.Base.{
  ℕ, ◌+◌, String, Bool, not, Option, none, some, [], ◌++◌, ◌==◌, ltb, length, if◌then◌else◌,
}
use dataspace_in_a_box.Config.{Config}
use dataspace_in_a_box.Message.{DataAddress}
use dataspace_in_a_box.Action.{Act, pure, time_now, validate_outgoing_callback, ◌>>=◌, ◌>>◌}
use dataspace_in_a_box.Store.Rows.{ConsumerTransfer}
use dataspace_in_a_box.Store.Transfers.{
  set_consumer_transfer_expected_bytes, record_consumer_transfer_outcome,
}
use dataspace_in_a_box.Range.{same, range_header}
use dataspace_in_a_box.Pull.Outcome.{
  Disk, Response, Attempt, answered, unanswered, Site, PullOutcome, fail, succeed, existing_size,
  fresh_outcome,
}
use dataspace_in_a_box.Pull.Response.{
  Verdict, stop, proceed, unanswered_reason, check_resumed, check_fresh, expected_bytes,
}
use dataspace_in_a_box.Pull.Copy.{copy_limit, copy, kept, complaint}

abbrev pub Pulled : Type 0
Pulled = PullOutcome × Disk

unfoldable pub final_path : Config → String → String
final_path cfg pid = Text.◌++◌ (Text.◌++◌ cfg.data_dir "/downloads/") pid

unfoldable pub publish :
    Config → Site → ConsumerTransfer → Option String → PullOutcome → Disk → Act Pulled
publish cfg site t (some reason) o d = pure (fail reason o, d)
publish cfg site t none o d = do
  now ← time_now
  pure (
    succeed (final_path cfg t.consumer_pid) now o,
    record d { partial = none; final = d.partial },
  )

unfoldable pub store_body :
    Config → Site → ConsumerTransfer → Bool → ℕ → Response → PullOutcome → Disk → Act Pulled
store_body cfg site t resuming expected response o d =
    if not site.opens
    then pure (fail "the download file could not be opened" o, d)
    else let existing = existing_size site d in
      let copied = copy site (copy_limit cfg.max_download_bytes existing) response in
      let total = existing + length copied.bytes in
      publish cfg site t (complaint site cfg.max_download_bytes expected total copied.error)
        (record o { received = total })
        (record d { partial = some (kept resuming d ++ copied.bytes) })

-- A failure of this call is logged only.
unfoldable pub note_expected : ConsumerTransfer → ℕ → Act (Unit {0})
note_expected t expected =
    if same expected t.expected_bytes
    then pure tt
    else (do noted ← set_consumer_transfer_expected_bytes t.consumer_pid expected; pure tt)

unfoldable pub take_response :
    Config → Site → ConsumerTransfer → Bool → Response → PullOutcome → Disk → Verdict → Act Pulled
take_response cfg site t resuming response o d (stop o' d') = pure (o', d')
take_response cfg site t resuming response o d (proceed stated) = do
  let expected = expected_bytes resuming t stated response
  note_expected t expected
  store_body cfg site t resuming expected response o d

unfoldable pub receive :
    Config → Site → ConsumerTransfer → Bool → PullOutcome → Disk → Attempt → Act Pulled
receive cfg site t resuming o d (unanswered cut) = pure (fail (unanswered_reason cut) o, d)
receive cfg site t resuming o d (answered response) =
    take_response cfg site t resuming response o d (
      if resuming
      then check_resumed site t (existing_size site d) response o d
      else check_fresh response o d)

unfoldable pub request_data :
    Config → Site → ConsumerTransfer → String → PullOutcome → Disk → Option String → Act Pulled
request_data cfg site t endpoint o d none = pure (fail "this connector's roster has expired" o, d)
request_data cfg site t endpoint o d (some authorization) =
    let existing = existing_size site d in
    let resuming = ltb 0 existing in
    receive cfg site t resuming o d (
      site.fetch (record {
        endpoint = endpoint;
        authorization = authorization;
        range = if resuming then range_header existing else [];
      }))

unfoldable pub contact : Config → Site → ConsumerTransfer → String → PullOutcome → Disk → Act Pulled
contact cfg site t endpoint o d = do
  allowed ← validate_outgoing_callback endpoint
  if not allowed
      then pure (fail "the data endpoint was refused by the outgoing-address guard" o, d)
      else if not site.makes_directory
      then pure (fail "the download directory could not be created" o, d)
      else if not (site.builds endpoint)
      then pure (fail "the data pull request could not be built" o, d)
      else request_data cfg site t endpoint o d (site.mint t.counterparty_id)

unfoldable pub pull : Config → Site → ConsumerTransfer → Option DataAddress → Disk → Act Pulled
pull cfg site t none d =
    pure (fail "the start message carried no data endpoint" (fresh_outcome site d), d)
pull cfg site t (some address) d =
    if address.endpoint == ""
    then pure (fail "the start message carried no data endpoint" (fresh_outcome site d), d)
    else contact cfg site t address.endpoint (fresh_outcome site d) d

unfoldable pub record_outcome : ConsumerTransfer → Pulled → Act Disk
record_outcome t (o, d) = do
  recorded ← record_consumer_transfer_outcome t.consumer_pid o.received o.path o.completed o.failure
  pure d

unfoldable pub run_pull_transfer_data :
    Config → Site → ConsumerTransfer → Option DataAddress → Disk → Act Disk
run_pull_transfer_data cfg site t address d =
    if site.in_flight
    then pure d
    else (do pulled ← pull cfg site t address d; record_outcome t pulled)
