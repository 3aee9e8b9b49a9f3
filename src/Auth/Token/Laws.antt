-- ===== src/Auth/Token/Laws.antt =====
-- What a credential that is accepted proves, and that the connector's own are.
use dataspace_in_a_box.Base.{
  ℕ, ◌+◌, ◌≤◌, ◌<◌, String, ◌≡◌, refl, ap, ◌∙◌, true, false, Option, none, some, [], ◌∷◌, ◌==◌,
  eq_iff, eq_refl, ltb, leb, inl, inr, Bool-cases, Option-cases, arith,
}
use dataspace_in_a_box.Auth.Token.{
  Claims, Codec, TokenError, accepted, rejected, algorithm, clock_leeway, max_credential_lifetime,
  verify_claims, signing_input, mint, verify_signed, verify_header, verify_decoded, verify,
}

-- What the standard library's encodings and signatures promise, for a key and its secret.
pub record Faithful {Key Secret : Type 0} (codec : Codec Key Secret) (key : Key) (secret : Secret)
    : Type 0 where
  pub decode-encode : (s : String) → codec.decode (codec.encode s) ≡ some s
  pub read-header : (alg : String) → codec.read_header (codec.header_text alg) ≡ some alg
  pub read-claims : (c : Claims) → codec.read_claims (codec.claims_text c) ≡ some c
  pub check-sign : (m : String) → codec.check key m (codec.sign secret m) ≡ true

module _ {Key Secret : Type 0} (codec : Codec Key Secret) (key : Key) (secret : Secret)
    (faithful : Faithful codec key secret) (key_for : String → Option Key) (iss aud : String)
    (listed : key_for iss ≡ some key) (minted ttl now : ℕ) where
  -- A credential that a listed participant mints for this connector is accepted under its name, on
  -- any clock that has not passed the expiry by the leeway, and that is not further behind than the
  -- longest lifetime allows.
  pub verify-mint :
      now < minted + ttl + clock_leeway
      → minted + ttl ≤ now + max_credential_lifetime
      → verify codec (mint codec secret iss aud minted ttl) key_for aud now ≡ accepted iss
  unfolding verify mint verify_decoded verify_header verify_signed verify_claims
  verify-mint alive short =
      let late : leb (minted + ttl + clock_leeway) now ≡ false = ground arith in
      let long : ltb (now + max_credential_lifetime) (minted + ttl) ≡ false = ground arith in
      let c : Claims = record { iss = iss; aud = aud; iat = minted; exp = minted + ttl } in
      let header : String = codec.encode (codec.header_text algorithm) in
      let input : String = signing_input codec header (codec.encode (codec.claims_text c)) in
      rw
        (
          faithful.decode-encode (codec.header_text algorithm),
          faithful.decode-encode (codec.claims_text c),
          faithful.decode-encode (codec.sign secret input),
          faithful.read-header algorithm,
          faithful.read-claims c,
          verify_signed,
          listed,
          faithful.check-sign input,
          late,
          long,
          eq_refl aud,
        )
        refl

-- What stands in the three segments behind an accepted name: a header that names the algorithm, claims,
-- and the signature of the issuer's key over the first two.
pub record Authentic {Key Secret : Type 0} (codec : Codec Key Secret)
    (key_for : String → Option Key) (want_aud : String) (now : ℕ) (p q r : String) (name : String)
    : Type 0 where
  pub header_text : String
  pub header_decoded : codec.decode p ≡ some header_text
  pub header_read : codec.read_header header_text ≡ some algorithm
  pub claims : Claims
  pub claims_text : String
  pub decoded : codec.decode q ≡ some claims_text
  pub read : codec.read_claims claims_text ≡ some claims
  pub key : Key
  pub listed : key_for claims.iss ≡ some key
  pub signature : String
  pub signature_decoded : codec.decode r ≡ some signature
  pub signed : codec.check key (signing_input codec p q) signature ≡ true
  pub named : claims.iss ≡ name
  pub addressed : claims.aud ≡ want_aud
  pub alive : now < claims.exp + clock_leeway
  pub short : claims.exp ≤ now + max_credential_lifetime

rejects : {P : Type 0} (x : TokenError) (name : String) → rejected x ≡ accepted name → P
rejects x name h = absurd (ground arith)

accepted_claims :
    (c : Claims) (want_aud : String) (now : ℕ) (name : String)
    → verify_claims c want_aud now ≡ accepted name
    → (c.iss ≡ name)
      × (c.aud ≡ want_aud)
      × (now < c.exp + clock_leeway)
      × (c.exp ≤ now + max_credential_lifetime)
unfolding verify_claims
accepted_claims c want_aud now name h = ground (arith, eq_iff c.aud want_aud)

module _ {Key Secret : Type 0} (codec : Codec Key Secret) (key_for : String → Option Key)
    (want_aud : String) (now : ℕ) (p q r : String) (name : String) where
  signed-Authentic :
      (header text sig : String) (o : Option Claims)
      → codec.decode p ≡ some header
      → codec.read_header header ≡ some algorithm
      → codec.decode r ≡ some sig
      → codec.decode q ≡ some text
      → codec.read_claims text ≡ o
      → verify_signed codec key_for want_aud now p q o sig ≡ accepted name
      → Authentic codec key_for want_aud now p q r name
  unfolding verify_signed
  signed-Authentic header text sig none hd hr sd d o = rejects _ name
  signed-Authentic header text sig (some c) hd hr sd d o = elim (Option-cases (key_for c.iss)) [
    | inl k ↦ rw (verify_signed, k) (rejects _ name)
    | inr (key, k) ↦ elim (Bool-cases (codec.check key (signing_input codec p q) sig)) [
      | inr b ↦ rw (verify_signed, k, b) (rejects _ name)
      | inl b ↦
          rw (verify_signed, k, b)
            (λ h.
              let (named, addressed, alive, short) = accepted_claims c want_aud now name h in
              record {
                header_text = header;
                header_decoded = hd;
                header_read = hr;
                claims = c;
                claims_text = text;
                decoded = d;
                read = o;
                key = key;
                listed = k;
                signature = sig;
                signature_decoded = sd;
                signed = b;
                named = named;
                addressed = addressed;
                alive = alive;
                short = short;
              })
    ]
  ]

  header-Authentic :
      (header text sig : String) (o : Option String)
      → codec.decode p ≡ some header
      → codec.read_header header ≡ o
      → codec.decode r ≡ some sig
      → codec.decode q ≡ some text
      → verify_header codec key_for want_aud now p q o text sig ≡ accepted name
      → Authentic codec key_for want_aud now p q r name
  unfolding verify_header
  header-Authentic header text sig none hd hr sd d = rejects _ name
  header-Authentic header text sig (some alg) hd hr sd d = elim (Bool-cases (alg == algorithm)) [
    | inr b ↦ rw b (rejects _ name)
    | inl b ↦
        let known : codec.read_header header ≡ some algorithm =
          hr ∙ ap some ((eq_iff alg algorithm).0 b) in
        rw b (signed-Authentic header text sig (codec.read_claims text) hd known sd d refl)
  ]

  decoded-Authentic :
      (a b c : Option String)
      → codec.decode p ≡ a
      → codec.decode q ≡ b
      → codec.decode r ≡ c
      → verify_decoded codec key_for want_aud now p q a b c ≡ accepted name
      → Authentic codec key_for want_aud now p q r name
  unfolding verify_decoded
  decoded-Authentic (some header) (some text) (some sig) hd d sd h =
      header-Authentic header text sig (codec.read_header header) hd refl sd d h
  decoded-Authentic none b c hd d sd h = rejects _ name h
  decoded-Authentic (some header) none c hd d sd h = rejects _ name h
  decoded-Authentic (some header) (some text) none hd d sd h = rejects _ name h

  -- A credential of three segments is accepted only if the first decodes to a header that names the
  -- algorithm, the second to claims, whose issuer is the name that is answered, and the third to a
  -- signature that the key listed for the issuer verifies over the first two; and only if the claims
  -- are addressed to this connector, have not passed their expiry by the leeway, and do not
  -- expire later than the longest lifetime from now.
  pub verify-Authentic :
      verify codec (p ∷ q ∷ r ∷ []) key_for want_aud now ≡ accepted name
      → Authentic codec key_for want_aud now p q r name
  unfolding verify
  verify-Authentic h =
      decoded-Authentic (codec.decode p) (codec.decode q) (codec.decode r) refl refl refl h
