-- ===== src/Auth/Roster.antt =====
-- The roster of internal/auth/roster.go: how a signed document becomes the participants that this
-- connector knows. JSON, base64, Ed25519, RFC 3339 and `url.Parse` are the standard library's and
-- stand as the fields of a codec. A time is a number of nanoseconds; a version below 0 reads as 0.
pub mod Laws
pub mod Entries
use dataspace_in_a_box.Base.{
  ℕ, ◌+◌, String, Bool, true, false, not, ◌||◌, ◌&&◌, Option, none, some, List, [], ◌∷◌, ◌==◌, ltb,
  leb, length, if◌then◌else◌,
}
use dataspace_in_a_box.Range.{Bytes, codes, same}

pub record RosterEntry : Type 0 where
  pub id : String
  pub public_key : String
  pub connector_address : String

pub record RosterDocument : Type 0 where
  pub participants : List RosterEntry
  pub version : ℕ
  pub expires_at : String
  pub signature : String

-- `userinfo` is `u.User != nil`.
pub record Url : Type 0 where
  pub scheme : String
  pub host : String
  pub userinfo : Bool

pub record RosterCodec (Signer Secret : Type 0) : Type 0 where
  pub unmarshal : String → Option RosterDocument
  pub marshal : List RosterEntry → ℕ → String → String
  pub decode : String → Option Bytes
  pub encode : Bytes → String
  pub sign : Secret → String → Bytes
  pub check : Signer → String → Bytes → Bool
  pub parse_time : String → Option ℕ
  pub parse_url : String → Option Url

pub data RosterError : Type 0 where
  unreadable not_json no_participants no_version no_expiry unsigned bad_encoding not_verified :
      RosterError
  bad_time too_far_ahead expired : RosterError
  no_id seen_twice no_key bad_key wrong_size bad_address : RosterError

pub data RosterResult (A : Type 0) : Type 0 where
  ok : A → RosterResult A
  err : RosterError → RosterResult A

module _ {A B : Type 0} where
  infixl 5 ◌>>=◌ ◌>>◌
  abbrev pub ◌>>=◌ : RosterResult A → (A → RosterResult B) → RosterResult B
  ok a >>= f = f a
  err x >>= f = err x

  abbrev pub ◌>>◌ : RosterResult A → RosterResult B → RosterResult B
  m >> n = m >>= λ _. n

-- `if test { return err }`
abbrev pub refuse_if : Bool → RosterError → RosterResult (Unit {0})
refuse_if true x = err x
refuse_if false x = ok tt

abbrev pub or_refuse : {A : Type 0} → Option A → RosterError → RosterResult A
or_refuse (some a) x = ok a
or_refuse none x = err x

-- The maps of the source as lists of pairs.
pub record Roster : Type 0 where
  pub keys : List (String × Bytes)
  pub addresses : List (String × String)
  pub version : ℕ
  pub expires_at : ℕ

module _ {V : Type 0} where
  unfoldable pub value_of : List (String × V) → String → Option V
  value_of [] id = none
  value_of ((named, v) ∷ rest) id = if named == id then some v else value_of rest id

unfoldable pub key_for : Roster → String → Option Bytes
unfolding value_of
key_for r id = value_of r.keys id

unfoldable pub address_for : Roster → String → Option String
unfolding value_of
address_for r id = value_of r.addresses id

unfoldable pub usable_at : ℕ → ℕ → Bool
usable_at expires_at now = ltb now expires_at

-- 400 days
abbrev pub max_roster_lifetime : ℕ
max_roster_lifetime = 34_560_000_000_000_000

abbrev pub key_size : ℕ
key_size = 32

unfoldable pub check_roster_document : RosterDocument → RosterResult (Unit {0})
check_roster_document doc = do
  refuse_if (leb (length doc.participants) 0) no_participants
  refuse_if (ltb doc.version 1) no_version
  refuse_if (doc.expires_at == "") no_expiry

unfoldable pub check_window : ℕ → ℕ → RosterResult ℕ
check_window now expires = do
  refuse_if (ltb (now + max_roster_lifetime) expires) too_far_ahead
  refuse_if (not (usable_at expires now)) expired
  ok expires

unfoldable pub is_byte_of : Bytes → ℕ → Bool
is_byte_of [] c = false
is_byte_of (b ∷ s) c = same b c || is_byte_of s c

-- `strings.ContainsAny`
unfoldable pub contains_any : Bytes → Bytes → Bool
contains_any [] chars = false
contains_any (c ∷ s) chars = is_byte_of chars c || contains_any s chars

unfoldable pub ends_in : ℕ → Bytes → Bool
ends_in c [] = false
ends_in c (b ∷ []) = same b c
ends_in c (b ∷ a ∷ s) = ends_in c (a ∷ s)

-- A space, a tab, a carriage return, a line feed.
abbrev whitespace : Bytes
whitespace = 32 ∷ 9 ∷ 13 ∷ 10 ∷ []

unfoldable pub check_url : Url → RosterResult (Unit {0})
check_url u = do
  refuse_if (not (u.scheme == "http" || u.scheme == "https")) bad_address
  refuse_if (u.host == "") bad_address
  refuse_if u.userinfo bad_address

module _ {Signer Secret : Type 0} (codec : RosterCodec Signer Secret) where
  unfoldable pub canonical_roster_bytes : RosterDocument → String
  canonical_roster_bytes doc = codec.marshal doc.participants doc.version doc.expires_at

  unfoldable pub check_roster_expiry : RosterDocument → ℕ → RosterResult ℕ
  unfolding check_window
  check_roster_expiry doc now = do
    expires ← or_refuse (codec.parse_time doc.expires_at) bad_time
    check_window now expires

  unfoldable pub check_connector_address : String → RosterResult (Unit {0})
  check_connector_address address = do
    refuse_if (contains_any (codes address) (codes "?#")) bad_address
    refuse_if (contains_any (codes address) whitespace) bad_address
    refuse_if (ends_in b'/' (codes address)) bad_address
    u ← or_refuse (codec.parse_url address) bad_address
    check_url u

  -- The address is optional.
  unfoldable pub add_address : RosterEntry → Roster → RosterResult Roster
  add_address p r = if p.connector_address == "" then ok r else (do
    check_connector_address p.connector_address
    ok (record r { addresses = (p.id, p.connector_address) ∷ r.addresses }))

  unfoldable pub is_listed : Roster → String → Bool
  is_listed r id = elim (key_for r id) [ none ↦ false | some key ↦ true ]

  unfoldable pub add_entry : RosterEntry → Roster → RosterResult Roster
  add_entry p r = do
    refuse_if (p.id == "") no_id
    refuse_if (is_listed r p.id) seen_twice
    refuse_if (p.public_key == "") no_key
    raw ← or_refuse (codec.decode p.public_key) bad_key
    refuse_if (not (same (length raw) key_size)) wrong_size
    add_address p (record r { keys = (p.id, raw) ∷ r.keys })

  unfoldable pub add_entries : List RosterEntry → Roster → RosterResult Roster
  add_entries [] r = ok r
  add_entries (p ∷ ps) r = do r' ← add_entry p r; add_entries ps r'

  unfoldable pub check_signature : Signer → RosterDocument → RosterResult (Unit {0})
  check_signature signer doc = do
    refuse_if (doc.signature == "") unsigned
    signature ← or_refuse (codec.decode doc.signature) bad_encoding
    refuse_if (not (codec.check signer (canonical_roster_bytes doc) signature)) not_verified

  -- A document that is read and parsed.
  unfoldable pub load_document : Signer → ℕ → RosterDocument → RosterResult Roster
  load_document signer now doc = do
    check_roster_document doc
    check_signature signer doc
    expires ← check_roster_expiry doc now
    add_entries doc.participants
        (record { keys = []; addresses = []; version = doc.version; expires_at = expires })

  -- The file's content, `none` where it cannot be read.
  unfoldable pub load_roster : Option String → Signer → ℕ → RosterResult Roster
  load_roster file signer now = do
    text ← or_refuse file unreadable
    doc ← or_refuse (codec.unmarshal text) not_json
    load_document signer now doc

  unfoldable pub sign_document : Secret → ℕ → RosterDocument → RosterResult String
  sign_document secret now doc = do
    check_roster_document doc
    expires ← check_roster_expiry doc now
    ok (codec.encode (codec.sign secret (canonical_roster_bytes doc)))

  unfoldable pub sign_roster : Option String → Secret → ℕ → RosterResult String
  sign_roster file secret now = do
    text ← or_refuse file unreadable
    doc ← or_refuse (codec.unmarshal text) not_json
    sign_document secret now doc
