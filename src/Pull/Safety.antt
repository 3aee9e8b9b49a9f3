-- ===== src/Pull/Safety.antt =====
-- The pull keeps the guarantee.
use dataspace_in_a_box.Base.{ℕ, String, Bool, Option, none, some}
use dataspace_in_a_box.Config.{Config}
use dataspace_in_a_box.Message.{DataAddress}
use dataspace_in_a_box.Store.Rows.{ConsumerTransfer}
use dataspace_in_a_box.Guarantee.{Safe, safe_rules}
use dataspace_in_a_box.Store.Safety.{
  Safe-set_consumer_transfer_expected_bytes, Safe-record_consumer_transfer_outcome,
}
use dataspace_in_a_box.Pull.Outcome.{
  Disk, Response, Attempt, answered, unanswered, Site, PullOutcome,
}
use dataspace_in_a_box.Pull.Response.{Verdict, stop, proceed}
use dataspace_in_a_box.Pull.Run.{
  Pulled, publish, store_body, note_expected, take_response, receive, request_data, contact, pull,
  record_outcome, run_pull_transfer_data,
}

module _ (cfg : Config) (site : Site) (t : ConsumerTransfer) where
  Safe-publish :
      (reason : Option String) (o : PullOutcome) (d : Disk) → Safe (publish cfg site t reason o d)
  unfolding publish
  Safe-publish (some reason) o d = search safe_rules
  Safe-publish none o d = search safe_rules

  Safe-store_body :
      (resuming : Bool) (expected : ℕ) (r : Response) (o : PullOutcome) (d : Disk)
      → Safe (store_body cfg site t resuming expected r o d)
  unfolding store_body
  Safe-store_body resuming expected r o d = search (safe_rules, Safe-publish)

  Safe-note_expected : (expected : ℕ) → Safe (note_expected t expected)
  unfolding note_expected
  Safe-note_expected expected = search (safe_rules, Safe-set_consumer_transfer_expected_bytes)

  Safe-take_response :
      (resuming : Bool) (r : Response) (o : PullOutcome) (d : Disk) (v : Verdict)
      → Safe (take_response cfg site t resuming r o d v)
  unfolding take_response
  Safe-take_response resuming r o d (stop o' d') = search safe_rules
  Safe-take_response resuming r o d (proceed stated) =
      search (safe_rules, Safe-note_expected, Safe-store_body)

  Safe-receive :
      (resuming : Bool) (o : PullOutcome) (d : Disk) (a : Attempt)
      → Safe (receive cfg site t resuming o d a)
  unfolding receive
  Safe-receive resuming o d (answered r) = Safe-take_response resuming r o d _
  Safe-receive resuming o d (unanswered cut) = search safe_rules

  Safe-request_data :
      (endpoint : String) (o : PullOutcome) (d : Disk) (minted : Option String)
      → Safe (request_data cfg site t endpoint o d minted)
  unfolding request_data
  Safe-request_data endpoint o d none = search safe_rules
  Safe-request_data endpoint o d (some a) = Safe-receive _ o d _

  Safe-contact :
      (endpoint : String) (o : PullOutcome) (d : Disk) → Safe (contact cfg site t endpoint o d)
  unfolding contact
  Safe-contact endpoint o d = search (safe_rules, Safe-request_data) depth 20

  pub Safe-pull : (address : Option DataAddress) (d : Disk) → Safe (pull cfg site t address d)
  unfolding pull
  Safe-pull none d = search safe_rules
  Safe-pull (some address) d = search (safe_rules, Safe-contact)

  Safe-record_outcome : (r : Pulled) → Safe (record_outcome t r)
  unfolding record_outcome
  Safe-record_outcome r = search (safe_rules, Safe-record_consumer_transfer_outcome)

  pub Safe-run_pull_transfer_data :
      (address : Option DataAddress) (d : Disk) → Safe (run_pull_transfer_data cfg site t address d)
  unfolding run_pull_transfer_data
  Safe-run_pull_transfer_data address d = search (safe_rules, Safe-pull, Safe-record_outcome)
