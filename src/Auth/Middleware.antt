-- ===== src/Auth/Middleware.antt =====
-- The credential check in front of the protocol routes: internal/dsp/auth_middleware.go, with the
-- splitting of a token from internal/auth/token.go. A header is a text; the codec, the roster's keys
-- and the clock are those of Token and Roster.
pub mod Admitting
use Prim.Native.Char.{code}
use dataspace_in_a_box.Base.{
  ℕ, ◌+◌, String, Bool, true, false, not, ◌&&◌, ◌||◌, Option, none, some, List, [], ◌∷◌, ◌==◌, leb,
  if◌then◌else◌,
}
use dataspace_in_a_box.Range.{same}
use dataspace_in_a_box.Message.{Reply, refusal, transfer_error, roster_expired, credential_required}
use dataspace_in_a_box.Auth.Token.{Codec, Verified, accepted, rejected, verify}

-- `unicode.IsSpace`
unfoldable pub is_space : ℕ → Bool
is_space c =
    (leb 9 c && leb c 13)
    || (same c 32
        || (same c 0x85
            || (same c 0xa0
                || (same c 0x1680
                    || ((leb 0x2000 c && leb c 0x200a)
                        || (same c 0x2028
                            || (same c 0x2029
                                || (same c 0x202f || (same c 0x205f || same c 0x3000)))))))))

unfoldable pub trim_left : String → String
trim_left String.[] = ""
trim_left (String.◌∷◌ c s) = if is_space (code c) then trim_left s else String.◌∷◌ c s

unfoldable pub trim_right : String → String
trim_right String.[] = ""
trim_right (String.◌∷◌ c s) =
    let rest = trim_right s in if is_space (code c) && rest == "" then "" else String.◌∷◌ c rest

-- A letter of the scheme in either case, or the same character.
unfoldable pub folds_to : ℕ → ℕ → Bool
folds_to lower c = same lower c || (leb b'a' lower && (leb lower b'z' && same lower (c + 32)))

-- What follows the scheme, where the header begins with it.
unfoldable pub cut_fold : String → String → Option String
cut_fold String.[] s = some s
cut_fold (String.◌∷◌ p ps) String.[] = none
cut_fold (String.◌∷◌ p ps) (String.◌∷◌ c s) =
    if folds_to (code p) (code c) then cut_fold ps s else none

unfoldable pub cut_bearer : String → Option String
cut_bearer header = elim (cut_fold "bearer " header) [
  | none ↦ none
  | some rest ↦ let token = trim_left (trim_right rest) in if token == "" then none else some token
]

-- `strings.Split(token, ".")`
unfoldable pub split_dots : String → List String
split_dots String.[] = "" ∷ []
split_dots (String.◌∷◌ c s) = elim (split_dots s) [
  | [] ↦ []
  | first ∷ rest ↦ if same (code c) b'.' then "" ∷ (first ∷ rest) else String.◌∷◌ c first ∷ rest
]

-- What becomes of a request: the next handler serves it for the issuer, or it is answered here.
pub data Admission : Type 0 where
  admitted : String → Admission
  answered : Reply → Admission

abbrev pub unauthorized : Reply
unauthorized = refusal 401 (transfer_error credential_required)

unfoldable pub admit : Verified → Admission
admit (accepted issuer) = admitted issuer
admit (rejected x) = answered unauthorized

module _ {Key Secret : Type 0} (codec : Codec Key Secret) where
  -- `usable` is the roster guard's answer, `header` the Authorization header.
  unfoldable pub require_participant :
      (String → Option Key) → String → Bool → ℕ → String → Admission
  require_participant key_for self false now header =
      answered (refusal 409 (transfer_error roster_expired))
  require_participant key_for self true now header = elim (cut_bearer header) [
    | none ↦ answered unauthorized
    | some token ↦ admit (verify codec (split_dots token) key_for self now)
  ]
