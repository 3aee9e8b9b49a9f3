-- ===== src/Auth/Middleware/Admitting.antt =====
-- Who gets past the credential check, with the roster that was loaded.
use dataspace_in_a_box.Base.{
  ℕ, ◌+◌, ◌<◌, ◌≤◌, String, ◌≡◌, refl, sym, ◌∙◌, inl, inr, Bool, true, false, Option, some, List,
  [], ◌∷◌, ltb, Option-cases, arith,
}
use dataspace_in_a_box.Range.{Bytes}
use dataspace_in_a_box.Auth.Token.{
  Claims, Codec, Verified, accepted, rejected, signing_input, algorithm, verify, clock_leeway,
  max_credential_lifetime,
}
use dataspace_in_a_box.Auth.Token.Laws.{Authentic, verify-Authentic}
use dataspace_in_a_box.Auth.Roster.{
  RosterEntry, RosterDocument, RosterCodec, ok, Roster, key_for, usable_at, load_document,
}
use dataspace_in_a_box.Auth.Roster.Entries.{entry_of, known_key}
use dataspace_in_a_box.Auth.Roster.Laws.{load_document-Enrolled}
use dataspace_in_a_box.Auth.Middleware.{
  admitted, admit, cut_bearer, split_dots, require_participant,
}

-- What stands behind an admitted name.
pub record Vouched {Signer Secret Secret' : Type 0} (codec : Codec Bytes Secret')
    (roster_codec : RosterCodec Signer Secret) (doc : RosterDocument) (r : Roster) (self : String)
    (instant now : ℕ) (header : String) (name : String) : Type 0 where
  pub unexpired : instant < r.expires_at
  pub token : String
  pub presented : cut_bearer header ≡ some token
  pub entry : RosterEntry
  pub listed : entry_of name doc.participants ≡ some entry
  pub key : Bytes
  pub keyed : roster_codec.decode entry.public_key ≡ some key
  pub p : String
  pub q : String
  pub s : String
  pub segments : split_dots token ≡ p ∷ q ∷ s ∷ []
  pub header_text : String
  pub header_decoded : codec.decode p ≡ some header_text
  pub header_read : codec.read_header header_text ≡ some algorithm
  pub signature : String
  pub signature_decoded : codec.decode s ≡ some signature
  pub signed : codec.check key (signing_input codec p q) signature ≡ true
  pub claims_text : String
  pub claims_decoded : codec.decode q ≡ some claims_text
  pub claims : Claims
  pub claims_read : codec.read_claims claims_text ≡ some claims
  pub issued : claims.iss ≡ name
  pub addressed : claims.aud ≡ self
  pub alive : now < claims.exp + clock_leeway
  pub short : claims.exp ≤ now + max_credential_lifetime

admits : (v : Verified) (name : String) → admit v ≡ admitted name → v ≡ accepted name
unfolding admit
admits (accepted issuer) name h = ground arith
admits (rejected x) name h = absurd (ground arith)

module _ {Secret' : Type 0} (codec : Codec Bytes Secret') (keys : String → Option Bytes)
    (self : String) (now : ℕ) (name : String) where
  record Segmented (l : List String) : Type 0 where
    p : String
    q : String
    s : String
    parts : l ≡ p ∷ q ∷ s ∷ []
    authentic : Authentic codec keys self now p q s name

  verified-Segmented :
      (l : List String) → verify codec l keys self now ≡ accepted name → Segmented l
  verified-Segmented (p ∷ q ∷ s ∷ []) h = record {
    p = p;
    q = q;
    s = s;
    parts = refl;
    authentic = verify-Authentic codec keys self now p q s name h;
  }
  verified-Segmented [] h = unfold verify in absurd (ground arith)
  verified-Segmented (p ∷ []) h = unfold verify in absurd (ground arith)
  verified-Segmented (p ∷ q ∷ []) h = unfold verify in absurd (ground arith)
  verified-Segmented (p ∷ q ∷ s ∷ t ∷ l) h = unfold verify in absurd (ground arith)

  record Presented (usable : Bool) (header : String) : Type 0 where
    usable_now : usable ≡ true
    token : String
    cut : cut_bearer header ≡ some token
    rest : Segmented (split_dots token)

  require_participant-Presented :
      (usable : Bool) (header : String)
      → require_participant codec keys self usable now header ≡ admitted name
      → Presented usable header
  unfolding require_participant
  require_participant-Presented false header h = absurd (ground arith)
  require_participant-Presented true header h = elim (Option-cases (cut_bearer header)) [
    | inl e ↦ absurd (ground arith)
    | inr (token, e) ↦
        let passed : admit (verify codec (split_dots token) keys self now) ≡ admitted name =
          ground arith in
        record {
          usable_now = refl;
          token = token;
          cut = e;
          rest = verified-Segmented (split_dots token) (admits _ name passed);
        }
  ]

known_entry :
    {Signer Secret : Type 0} (codec : RosterCodec Signer Secret) (ps : List RosterEntry)
    (name : String) (key : Bytes)
    → known_key codec ps name ≡ some key
    → (entry : RosterEntry) × (entry_of name ps ≡ some entry)
      × (codec.decode entry.public_key ≡ some key)
unfolding known_key
known_entry codec ps name key h = elim (Option-cases (entry_of name ps)) [
  | inl e ↦ absurd (ground arith)
  | inr (entry, e) ↦ (entry, e, ground arith)
]

-- A request is admitted under a name only while the roster has not expired, and only with a token of
-- three segments: a header that names the algorithm, claims, and a signature over the first two that
-- verifies with the key that the signed roster document lists for that name. The claims are issued
-- under that name and addressed to this connector, have not passed their expiry by the leeway, and do
-- not expire later than the longest lifetime from now. The roster is the one
-- that the document loaded to, and the guard's answer is that of `UsableAt` at the instant at which
-- the guard reads the clock.
pub require_participant-Vouched :
    {Signer Secret Secret' : Type 0} (codec : Codec Bytes Secret')
    (roster_codec : RosterCodec Signer Secret) (signer : Signer) (loaded : ℕ) (doc : RosterDocument)
    (r : Roster)
    → load_document roster_codec signer loaded doc ≡ ok r
    → (self : String) (instant now : ℕ) (header name : String)
    → require_participant codec (key_for r) self (usable_at r.expires_at instant) now header
      ≡ admitted name
    → Vouched codec roster_codec doc r self instant now header name
require_participant-Vouched codec roster_codec signer loaded doc r load self instant now header name
      h =
    let enrolled = load_document-Enrolled roster_codec signer loaded doc r load in
    let presented = require_participant-Presented codec (key_for r) self now name _ header h in
    let segments = presented.rest in
    let a = segments.authentic in
    let key_of_name : key_for r name ≡ some a.key = rw (← a.named) a.listed in
    let (entry, found, keyed) =
      known_entry roster_codec doc.participants name a.key
        (sym (enrolled.keys name) ∙ key_of_name) in
    record {
      unexpired = unfold usable_at in ltb_lt instant r.expires_at presented.usable_now;
      token = presented.token;
      presented = presented.cut;
      entry = entry;
      listed = found;
      key = a.key;
      keyed = keyed;
      p = segments.p;
      q = segments.q;
      s = segments.s;
      segments = segments.parts;
      header_text = a.header_text;
      header_decoded = a.header_decoded;
      header_read = a.header_read;
      signature = a.signature;
      signature_decoded = a.signature_decoded;
      signed = a.signed;
      claims_text = a.claims_text;
      claims_decoded = a.decoded;
      claims = a.claims;
      claims_read = a.read;
      issued = a.named;
      addressed = a.addressed;
      alive = a.alive;
      short = a.short;
    }
  where
    ltb_lt : (m n : ℕ) → ltb m n ≡ true → m < n
    ltb_lt m n e = ground arith
