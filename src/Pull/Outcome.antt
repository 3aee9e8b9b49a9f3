-- ===== src/Pull/Outcome.antt =====
-- What a pull sees and what it leaves behind: `pullOutcome` and the two files.
use dataspace_in_a_box.Base.{ℕ, String, Bool, Option, none, some, [], length, if◌then◌else◌}
use dataspace_in_a_box.Range.{Bytes}

-- The partial download and the published one; `none` is a file that is not there.
pub record Disk : Type 0 where
  pub partial : Option Bytes
  pub final : Option Bytes

-- Why a response or its body ends early: the idle timeout, the shutdown of the connector, or any
-- other error.
pub data Cut : Type 0 where
  idle shutting_down broken : Cut

-- `content_length` is `none` where the response states no length; `cut` is the error with which the
-- body ends, `none` at its end.
pub record Response : Type 0 where
  pub status : ℕ
  pub content_range : Bytes
  pub content_length : Option ℕ
  pub body : Bytes
  pub cut : Option Cut

pub data Attempt : Type 0 where
  answered : Response → Attempt
  unanswered : Cut → Attempt

-- `authorization` is empty where the header is not set, and so is `range`.
pub record PullRequest : Type 0 where
  pub endpoint : String
  pub authorization : String
  pub range : Bytes

-- `in_flight`: the map of running pulls has this transfer already. `mint` answers `none` where
-- nothing may be sent. `stats`: `os.Stat` of a partial download that is there gives its size. `room` is the number of bytes that are written before a write fails.
pub record Site : Type 0 where
  pub in_flight : Bool
  pub stats : Bool
  pub makes_directory : Bool
  pub builds : String → Bool
  pub mint : String → Option String
  pub fetch : PullRequest → Attempt
  pub removes : Bool
  pub opens : Bool
  pub room : Option ℕ
  pub syncs : Bool
  pub closes : Bool
  pub renames : Bool

pub record PullOutcome : Type 0 where
  pub received : ℕ
  pub path : String
  pub completed : Option ℕ
  pub failure : String

unfoldable pub fail : String → PullOutcome → PullOutcome
fail reason o = record o { failure = reason }

unfoldable pub succeed : String → ℕ → PullOutcome → PullOutcome
succeed path at o = record o { path = path; completed = some at; failure = "" }

abbrev pub bytes_of : Option Bytes → Bytes
bytes_of none = []
bytes_of (some content) = content

-- A file that is not there has no size.
abbrev pub size : Option Bytes → ℕ
size file = length (bytes_of file)

-- `existingSize`: where `os.Stat` fails, for whichever reason, it stays zero.
unfoldable pub existing_size : Site → Disk → ℕ
existing_size site d = if site.stats then size d.partial else 0

unfoldable pub fresh_outcome : Site → Disk → PullOutcome
fresh_outcome site d = record {
  received = existing_size site d;
  path = "";
  completed = none;
  failure = "the pull ended without recording a reason";
}

unfoldable pub discard_partial : Site → PullOutcome → Disk → PullOutcome × Disk
discard_partial site o d =
    if site.removes then (record o { received = 0 }, record d { partial = none }) else (o, d)
