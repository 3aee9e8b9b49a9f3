-- ===== src/Pull/Copy.antt =====
-- The copy of the body into the partial download, and what is made of its end.
use Prim.Native.Nat.{◌-◌, ◌^◌}
use dataspace_in_a_box.Base.{
  ℕ, ◌+◌, String, Bool, true, false, not, ◌&&◌, Option, none, some, [], ltb, leb, length, take,
  if◌then◌else◌,
}
use dataspace_in_a_box.Range.{Bytes, same}
use dataspace_in_a_box.Pull.Outcome.{
  Disk, Cut, idle, shutting_down, broken, Response, Site, bytes_of,
}

-- `remaining+1` as an int64, zero where it is negative: so where the partial download is past the
-- ceiling, and where the sum wraps around.
unfoldable pub copy_limit : ℕ → ℕ → ℕ
copy_limit max existing =
    let limit = (max + 1) - existing in if leb (2 ^ 63) limit then 0 else limit

pub record Copied : Type 0 where
  pub bytes : Bytes
  pub error : Option Cut

unfoldable pub within_room : Option ℕ → Bytes → Bytes
within_room none bytes = bytes
within_room (some room) bytes = take room bytes

-- `io.Copy(out, io.LimitReader(body, remaining+1))`. A write that fails ends the copy; the body's own
-- error is met only where the limit is not reached before it.
unfoldable pub copy : Site → ℕ → Response → Copied
unfolding within_room
copy site limit response =
    let read = take limit response.body in
    let written = within_room site.room read in
    record {
      bytes = written;
      error =
          if ltb (length written) (length read)
          then some broken
          else if ltb (length response.body) limit
          then response.cut
          else none;
    }

unfoldable pub cut_reason : Cut → String
cut_reason idle = "the data pull made no progress within the idle timeout"
cut_reason shutting_down = "the connector shut down while the pull was running"
cut_reason broken = "the download could not be written"

-- The bytes on which the copy appends: a fresh attempt truncates the file.
unfoldable pub kept : Bool → Disk → Bytes
kept true d = bytes_of d.partial
kept false d = []

-- The reason for which a download that was copied is not published, `none` where it may be.
unfoldable pub complaint : Site → ℕ → ℕ → ℕ → Option Cut → Option String
unfolding cut_reason
complaint site max expected total (some cut) = some (cut_reason cut)
complaint site max expected total none =
    if ltb max total
    then some "the data pull exceeded max_download_bytes"
    else if not site.syncs
    then some "the download could not be synced"
    else if not site.closes
    then some "the download could not be closed"
    else if ltb 0 expected && not (same total expected)
    then some "the download does not match the length the provider stated"
    else if not site.renames
    then some "the download could not be placed"
    else none
