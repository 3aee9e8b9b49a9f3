-- ===== src/Auth/Roster/Laws.antt =====
-- What a roster that loads guarantees, and that a signed one loads.
use dataspace_in_a_box.Base.{
  ℕ, ◌+◌, ◌≤◌, ◌<◌, String, ◌≡◌, refl, inl, inr, true, false, some, [], ◌==◌, Option-cases, arith,
}
use dataspace_in_a_box.Range.{Bytes}
use dataspace_in_a_box.Auth.Roster.{
  RosterDocument, RosterCodec, ok, Roster, key_for, address_for, usable_at, max_roster_lifetime,
  check_roster_document, check_window, canonical_roster_bytes, check_roster_expiry, add_entries,
  check_signature, load_document, sign_document,
}
use dataspace_in_a_box.Auth.Roster.Entries.{
  chain_ok, Distinct, known_key, known_address, keys_read, addresses_read, entries-Distinct,
  entries_keep,
}

-- A roster that was loaded from a document at an instant.
pub record Enrolled {Signer Secret : Type 0} (codec : RosterCodec Signer Secret) (signer : Signer)
    (now : ℕ) (doc : RosterDocument) (r : Roster) : Type 0 where
  pub signature : Bytes
  pub decoded : codec.decode doc.signature ≡ some signature
  pub verified : codec.check signer (canonical_roster_bytes codec doc) signature ≡ true
  pub dated : codec.parse_time doc.expires_at ≡ some r.expires_at
  pub current : now < r.expires_at
  pub bounded : r.expires_at ≤ now + max_roster_lifetime
  pub version : r.version ≡ doc.version
  pub numbered : 1 ≤ r.version
  pub distinct : Distinct doc.participants
  pub keys : (id : String) → key_for r id ≡ known_key codec doc.participants id
  pub addresses : (id : String) → address_for r id ≡ known_address doc.participants id

ok_inj : {A : Type 0} (a b : A) → ok a ≡ ok b → a ≡ b
ok_inj a b h = ground arith

module _ {Signer Secret : Type 0} (codec : RosterCodec Signer Secret) where
  signature_of :
      (signer : Signer) (doc : RosterDocument)
      → check_signature codec signer doc ≡ ok tt
      → (s : Bytes) × (codec.decode doc.signature ≡ some s)
        × (codec.check signer (canonical_roster_bytes codec doc) s ≡ true)
  unfolding check_signature
  signature_of signer doc h = elim (Option-cases (codec.decode doc.signature)) [
    | inl e ↦ absurd (ground arith)
    | inr (s, e) ↦ (s, e, ground arith)
  ]

  window_of :
      (doc : RosterDocument) (now expires : ℕ)
      → check_roster_expiry codec doc now ≡ ok expires
      → (codec.parse_time doc.expires_at ≡ some expires)
        × (now < expires)
        × (expires ≤ now + max_roster_lifetime)
  unfolding check_roster_expiry check_window usable_at
  window_of doc now expires h = elim (Option-cases (codec.parse_time doc.expires_at)) [
    | inl e ↦ absurd (ground arith)
    | inr (at, e) ↦ (ground arith, ground arith, ground arith)
  ]

  version_of : (doc : RosterDocument) → check_roster_document doc ≡ ok tt → 1 ≤ doc.version
  unfolding check_roster_document
  version_of doc h = ground arith

  -- A roster that loads carries a signature of the configured signer over its participants, version
  -- and expiry; it expires later than the instant of the load, by 400 days at most; its version is the
  -- document's and at least 1; no participant stands in it twice; and for every id the key, and the
  -- address, is the one that the document states for that participant, and there is none for an id
  -- that the document does not list.
  pub load_document-Enrolled :
      (signer : Signer) (now : ℕ) (doc : RosterDocument) (r : Roster)
      → load_document codec signer now doc ≡ ok r
      → Enrolled codec signer now doc r
  unfolding load_document
  load_document-Enrolled signer now doc r h =
      let (u, h1, formed) = chain_ok (check_roster_document doc) _ h in
      let (v, h2, signed) = chain_ok (check_signature codec signer doc) _ h1 in
      let (expires, h3, window) = chain_ok (check_roster_expiry codec doc now) _ h2 in
      let (s, decoded, verified) = signature_of signer doc signed in
      let (dated, current, bounded) = window_of doc now expires window in
      let (version, expiry) = entries_keep codec doc.participants _ r h3 in
      let least = version_of doc formed in
      record {
        signature = s;
        decoded = decoded;
        verified = verified;
        dated = rw expiry dated;
        current = rw expiry current;
        bounded = rw expiry bounded;
        version = version;
        numbered = rw version least;
        distinct = entries-Distinct codec doc.participants _ r h3;
        keys = λ id. keys_read codec doc.participants _ r id refl h3;
        addresses = λ id. addresses_read codec doc.participants _ r id refl h3;
      }

  -- The signature is no part of what the other checks read.
  formed_too :
      (doc : RosterDocument) (s : String)
      → check_roster_document doc ≡ ok tt
      → check_roster_document (record doc { signature = s }) ≡ ok tt
  unfolding check_roster_document
  formed_too doc s h = h

  window_too :
      (doc : RosterDocument) (s : String) (now expires : ℕ)
      → check_roster_expiry codec doc now ≡ ok expires
      → check_roster_expiry codec (record doc { signature = s }) now ≡ ok expires
  unfolding check_roster_expiry
  window_too doc s now expires h = h

  signed_too :
      (signer : Signer) (doc : RosterDocument) (s : String) (b : Bytes)
      → (s == "") ≡ false
      → codec.decode s ≡ some b
      → codec.check signer (canonical_roster_bytes codec doc) b ≡ true
      → check_signature codec signer (record doc { signature = s }) ≡ ok tt
  unfolding check_signature canonical_roster_bytes
  signed_too signer doc s b named decoded verified = rw (named, decoded, verified) refl

  -- A document that `SignRoster` signs with the secret of the configured signer loads, at the same
  -- instant, as its participants do: of the checks before them none refuses it. This rests on that
  -- signature verifying, and on base64 reading back what it wrote of it, which is not empty.
  pub load_document-sign_document :
      (signer : Signer) (secret : Secret) (now : ℕ) (doc : RosterDocument) (signature : String)
      → (sig : Bytes) → sig ≡ codec.sign secret (canonical_roster_bytes codec doc)
      → codec.check signer (canonical_roster_bytes codec doc) sig ≡ true
      → codec.decode (codec.encode sig) ≡ some sig
      → (codec.encode sig == "") ≡ false
      → sign_document codec secret now doc ≡ ok signature
      → (expires : ℕ) × (codec.parse_time doc.expires_at ≡ some expires)
        × (load_document codec signer now (record doc { signature = signature })
            ≡ add_entries codec doc.participants
                (record { keys = []; addresses = []; version = doc.version; expires_at = expires }))
  unfolding sign_document load_document
  load_document-sign_document signer secret now doc signature sig made verifies faithful nonempty
        h =
      let (u, h1, formed) = chain_ok (check_roster_document doc) _ h in
      let (expires, h2, window) = chain_ok (check_roster_expiry codec doc now) _ h1 in
      let (dated, current, bounded) = window_of doc now expires window in
      let written : codec.encode sig ≡ signature = rw made (ok_inj _ _ h2) in
      let signed =
        signed_too signer doc signature sig (rw (← written) nonempty) (rw (← written) faithful)
          verifies in
      (
        expires,
        dated,
        rw (formed_too doc signature formed)
            (rw signed (rw (window_too doc signature now expires window) refl)),
      )
