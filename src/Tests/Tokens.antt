-- ===== src/Tests/Tokens.antt =====
-- Concrete uses of the theorems on credentials, with a codec that keeps one credential in the clear.
use dataspace_in_a_box.Base.{String, refl, some, ◌==◌}
use dataspace_in_a_box.Auth.Token.{
  Claims, Codec, verify_claims, verify_signed, verify_header, verify_decoded, verify,
}
use dataspace_in_a_box.Auth.Token.Laws.{Authentic, verify-Authentic}

abbrev bolt_claims : Claims
bolt_claims = record { iss = "bolt"; aud = "acme"; iat = 1000; exp = 1300 }

-- Every text reads as the claims of bolt, and a signature is the text that it signs.
abbrev clear_codec : Codec String String
clear_codec = record {
  encode = λ s. s;
  decode = λ s. some s;
  header_text = λ s. s;
  read_header = λ s. some s;
  claims_text = λ c. c.iss;
  read_claims = λ s. some bolt_claims;
  sign = λ secret m. m;
  check = λ key m sig. m == sig;
}

verify-Authentic_example :
    Authentic clear_codec (λ iss. some "key") "acme" 1100 "EdDSA" "bolt" "EdDSA.bolt" "bolt"
unfolding verify verify_decoded verify_header verify_signed verify_claims
verify-Authentic_example =
    verify-Authentic clear_codec (λ iss. some "key") "acme" 1100 "EdDSA" "bolt" "EdDSA.bolt" "bolt"
      refl
