-- ===== src/Auth/Token.antt =====
-- The credential of internal/auth/token.go. A token is given by its segments between dots; base64,
-- JSON and Ed25519 are the standard library's and stand as the fields of a codec. A time is a number
-- of seconds, and a negative `exp`, which has passed in any case, reads as 0.
pub mod Laws
use Prim.Native.String.{◌++◌}
use dataspace_in_a_box.Base.{
  ℕ, ◌+◌, String, Bool, not, Option, none, some, List, [], ◌∷◌, ◌==◌, ltb, leb, if◌then◌else◌,
}

pub record Claims : Type 0 where
  pub iss : String
  pub aud : String
  pub iat : ℕ
  pub exp : ℕ

-- A header is given by its algorithm.
pub record Codec (Key Secret : Type 0) : Type 0 where
  pub encode : String → String
  pub decode : String → Option String
  pub header_text : String → String
  pub read_header : String → Option String
  pub claims_text : Claims → String
  pub read_claims : String → Option Claims
  pub sign : Secret → String → String
  pub check : Key → String → String → Bool

pub data TokenError : Type 0 where
  malformed bad_algorithm unknown_issuer bad_signature expired wrong_audience lifetime_too_long :
      TokenError

pub data Verified : Type 0 where
  accepted : String → Verified
  rejected : TokenError → Verified

abbrev pub algorithm : String
algorithm = "EdDSA"

abbrev pub clock_leeway : ℕ
clock_leeway = 60

abbrev pub max_credential_lifetime : ℕ
max_credential_lifetime = 3600

-- The checks on the claims, once the signature has verified.
unfoldable pub verify_claims : Claims → String → ℕ → Verified
verify_claims c want_aud now =
    if leb (c.exp + clock_leeway) now
    then rejected expired
    else if ltb (now + max_credential_lifetime) c.exp
    then rejected lifetime_too_long
    else if c.aud == want_aud
    then accepted c.iss
    else rejected wrong_audience

module _ {Key Secret : Type 0} (codec : Codec Key Secret) where
  abbrev pub signing_input : String → String → String
  signing_input header claims = header ++ "." ++ claims

  unfoldable pub mint : Secret → String → String → ℕ → ℕ → List String
  mint secret iss aud now ttl =
      let header : String = codec.encode (codec.header_text algorithm) in
      let claims : String =
        codec.encode
          (codec.claims_text (record { iss = iss; aud = aud; iat = now; exp = now + ttl })) in
      header ∷ claims ∷ codec.encode (codec.sign secret (signing_input header claims)) ∷ []

  module _ (key_for : String → Option Key) (want_aud : String) (now : ℕ) (p q : String) where
    unfoldable pub verify_signed : Option Claims → String → Verified
    verify_signed none sig = rejected malformed
    verify_signed (some c) sig = elim (key_for c.iss) [
      | none ↦ rejected unknown_issuer
      | some key ↦
          if codec.check key (signing_input p q) sig
          then verify_claims c want_aud now
          else rejected bad_signature
    ]

    unfoldable pub verify_header : Option String → String → String → Verified
    verify_header none claims sig = rejected malformed
    verify_header (some alg) claims sig =
        if alg == algorithm
        then verify_signed (codec.read_claims claims) sig
        else rejected bad_algorithm

    unfoldable pub verify_decoded : Option String → Option String → Option String → Verified
    verify_decoded (some header) (some claims) (some sig) =
        verify_header (codec.read_header header) claims sig
    verify_decoded _ _ _ = rejected malformed

  unfoldable pub verify : List String → (String → Option Key) → String → ℕ → Verified
  verify (p ∷ q ∷ r ∷ []) key_for want_aud now =
      verify_decoded key_for want_aud now p q (codec.decode p) (codec.decode q) (codec.decode r)
  verify _ key_for want_aud now = rejected malformed
