-- ===== src/Envelope.antt =====
-- What every handler checks first: internal/dsp/auth_middleware.go (the party check) and the
-- envelope check of internal/dsp/negotiation_handler.go.
use dataspace_in_a_box.Base.{String, Bool, not, ◌&&◌, List, ◌==◌, contains}
use dataspace_in_a_box.Config.{Config, auth_required}
use dataspace_in_a_box.Message.{Reason, Body, refusal, context_required, wrong_type, not_yours}
use dataspace_in_a_box.Action.{Act, require, ◌>>◌}

abbrev pub context_url : String
context_url = "https://w3id.org/dspace/2025/1/context.jsonld"

-- What a handler reads of a request beside its body: the participant that the credential check
-- established (empty with authentication off), and the path's {id}.
pub record Request : Type 0 where
  pub issuer : String
  pub id : String

-- `error_body` is the error document of the protocol that is spoken.
unfoldable pub check_envelope : (Reason → Body) → List String → String → String → Act (Unit {0})
check_envelope error_body context got_type want_type = do
  require (contains context context_url) (refusal 400 (error_body context_required))
  require (got_type == want_type) (refusal 400 (error_body wrong_type))

unfoldable pub is_party : Config → Request → String → Bool
is_party cfg r stored = not (auth_required cfg && not (r.issuer == stored))

unfoldable pub refuse_if_not_party : (Reason → Body) → Config → Request → String → Act (Unit {0})
refuse_if_not_party error_body cfg r stored =
    require (is_party cfg r stored) (refusal 403 (error_body not_yours))
