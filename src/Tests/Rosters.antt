-- ===== src/Tests/Rosters.antt =====
-- Concrete uses of the theorems on the roster and on the credential check.
use dataspace_in_a_box.Base.{
  ℕ, String, ◌≡◌, refl, true, false, none, some, [], ◌∷◌, ◌==◌, if◌then◌else◌,
}
use dataspace_in_a_box.Range.{Bytes, codes}
use dataspace_in_a_box.Auth.Token.{
  Codec, verify, verify_decoded, verify_header, verify_signed, verify_claims,
}
use dataspace_in_a_box.Auth.Roster.{
  RosterEntry, RosterDocument, RosterCodec, ok, Roster, load_document, sign_document, add_entries,
  add_entry, add_address, is_listed, key_for, value_of, usable_at, check_roster_document,
  check_signature, check_roster_expiry, check_window, check_connector_address, check_url,
  contains_any, is_byte_of, ends_in, canonical_roster_bytes,
}
use dataspace_in_a_box.Auth.Roster.Laws.{
  Enrolled, load_document-Enrolled, load_document-sign_document,
}
use dataspace_in_a_box.Auth.Middleware.{
  admit, require_participant, cut_bearer, cut_fold, folds_to, trim_left, trim_right, is_space,
  split_dots,
}
use dataspace_in_a_box.Auth.Middleware.Admitting.{Vouched, require_participant-Vouched}

-- A key of 32 bytes.
abbrev bolt_key : Bytes
bolt_key = codes "0123456789abcdef0123456789abcdef"

-- A signature is the byte 1, and base64 knows the key and one signature.
abbrev codec : RosterCodec String String
codec = record {
  unmarshal = λ text. none;
  marshal = λ ps version expires. expires;
  decode = λ s. if s == "key" then some bolt_key else some (1 ∷ []);
  encode = λ b. "sig";
  sign = λ secret m. 1 ∷ [];
  check = λ signer m sig. true;
  parse_time = λ s. some 2000;
  parse_url = λ s. some (record { scheme = "https"; host = "bolt.example"; userinfo = false });
}

abbrev bolt_entry : RosterEntry
bolt_entry = record { id = "bolt"; public_key = "key"; connector_address = "https://bolt.example" }

abbrev document : RosterDocument
document = record {
  participants = bolt_entry ∷ [];
  version = 3;
  expires_at = "2026-11-26T05:00:00Z";
  signature = "sig";
}

abbrev roster : Roster
roster = record {
  keys = ("bolt", bolt_key) ∷ [];
  addresses = ("bolt", "https://bolt.example") ∷ [];
  version = 3;
  expires_at = 2000;
}

document_loads : load_document codec "operator" 1000 document ≡ ok roster
unfolding load_document check_roster_document check_signature check_roster_expiry check_window
    usable_at add_entries add_entry add_address is_listed key_for value_of check_connector_address
    check_url contains_any is_byte_of ends_in
document_loads = refl

load_document-Enrolled_example : Enrolled codec "operator" 1000 document roster
load_document-Enrolled_example =
    load_document-Enrolled codec "operator" 1000 document roster document_loads

load_document-sign_document_example :
    (expires : ℕ) × (codec.parse_time document.expires_at ≡ some expires)
    × (load_document codec "operator" 1000 (record document { signature = "sig" })
        ≡ add_entries codec document.participants
            (record { keys = []; addresses = []; version = 3; expires_at = expires }))
unfolding sign_document check_roster_document check_roster_expiry check_window usable_at
    canonical_roster_bytes
load_document-sign_document_example =
    load_document-sign_document codec "operator" "secret" 1000 document "sig" (1 ∷ []) refl refl
      refl refl refl

-- A token of bolt for acme, in a codec with one signature.
abbrev token_codec : Codec Bytes String
token_codec = record {
  encode = λ s. s;
  decode = λ s. some s;
  header_text = λ s. s;
  read_header = λ s. some s;
  claims_text = λ c. c.iss;
  read_claims = λ s. some (record { iss = "bolt"; aud = "acme"; iat = 1000; exp = 1300 });
  sign = λ secret m. m;
  check = λ key m sig. sig == "signed";
}

require_participant-Vouched_example :
    Vouched token_codec codec document roster "acme" 1500 1100 "bearer  EdDSA.bolt.signed " "bolt"
unfolding require_participant cut_bearer cut_fold folds_to trim_left trim_right is_space split_dots
    admit verify verify_decoded verify_header verify_signed verify_claims key_for value_of usable_at
require_participant-Vouched_example =
    require_participant-Vouched token_codec codec "operator" 1000 document roster document_loads
      "acme" 1500 1100 "bearer  EdDSA.bolt.signed " "bolt" refl
