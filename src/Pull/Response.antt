-- ===== src/Pull/Response.antt =====
-- The checks that a pull makes of the response before it takes the body, and the total that it
-- expects.
use dataspace_in_a_box.Base.{
  ℕ, String, Bool, true, false, not, ◌&&◌, Option, none, some, ltb, leb, if◌then◌else◌,
}
use dataspace_in_a_box.Store.Rows.{ConsumerTransfer}
use dataspace_in_a_box.Range.{same, ContentRange, parse_content_range}
use dataspace_in_a_box.Pull.Outcome.{
  Disk, Cut, idle, shutting_down, broken, Response, Site, PullOutcome, fail, discard_partial,
}

-- `proceed` carries the complete length that a 206 states.
pub data Verdict : Type 0 where
  stop : PullOutcome → Disk → Verdict
  proceed : Option ℕ → Verdict

unfoldable pub unanswered_reason : Cut → String
unanswered_reason idle = "the data endpoint sent no response within the idle timeout"
unanswered_reason shutting_down = "the connector shut down while the pull was running"
unanswered_reason broken = "the data pull failed before any bytes arrived"

unfoldable pub starts_at : Option ℕ → ℕ → Bool
starts_at none existing = false
starts_at (some first) existing = same first existing

unfoldable pub differs : Option ℕ → ℕ → Bool
differs none recorded = false
differs (some stated) recorded = ltb 0 recorded && not (same stated recorded)

unfoldable pub discard_and_fail : Site → String → PullOutcome → Disk → Verdict
unfolding discard_partial
discard_and_fail site reason o d =
    let (o', d') = discard_partial site o d in stop (fail reason o') d'

unfoldable pub check_partial :
    Site → ConsumerTransfer → ℕ → ContentRange → PullOutcome → Disk → Verdict
check_partial site t existing range o d =
    if not (starts_at range.first existing)
    then stop
        (fail "the provider's 206 did not start where this connector's partial download left off" o)
        d
    else if differs range.complete t.expected_bytes
    then discard_and_fail site
        "the provider states a different complete length than this transfer recorded" o d
    else proceed range.complete

unfoldable pub check_resumed : Site → ConsumerTransfer → ℕ → Response → PullOutcome → Disk → Verdict
check_resumed site t existing response o d =
    if same response.status 206
    then check_partial site t existing (parse_content_range response.content_range) o d
    else if same response.status 416
    then discard_and_fail site
        "the provider's file is no longer past what this connector already has" o d
    else stop (fail "the data endpoint gave an unexpected answer to a resumed pull" o) d

unfoldable pub check_fresh : Response → PullOutcome → Disk → Verdict
check_fresh response o d =
    if leb 300 response.status
    then stop (fail "the data endpoint refused the pull" o) d
    else proceed none

-- Zero is a length that is not known.
unfoldable pub expected_bytes : Bool → ConsumerTransfer → Option ℕ → Response → ℕ
expected_bytes true t (some stated) response = stated
expected_bytes true t none response = t.expected_bytes
expected_bytes false t stated response = elim response.content_length [
  | none ↦ 0
  | some length ↦ length
]
