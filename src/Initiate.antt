-- ===== src/Initiate.antt =====
-- What the two initiate hooks share: handleInitiate of internal/dsp/negotiation_consumer_handler.go
-- and handleTransferInitiate of internal/dsp/transfer_consumer_handler.go.
pub mod Laws
use dataspace_in_a_box.Base.{String, Bool, true, Option, none, some, ◌==◌, if◌then◌else◌}
use dataspace_in_a_box.Config.{Config}
use dataspace_in_a_box.Message.{
  Reason, Body, refusal, roster_expired, address_refused, unknown_participant, no_roster_address,
  roster_address_refused,
}
use dataspace_in_a_box.Action.{
  Act, pure, validate_outgoing_callback, require, or_reply, ◌>>=◌, ◌>>◌,
}

-- The fields of a handler. `usable` is what the roster guard answers; the two functions are `none`
-- with authentication off, where there is no roster.
pub record Connector : Type 0 where
  pub cfg : Config
  pub usable : Bool
  pub known_participant : Option (String → Bool)
  pub provider_address : Option (String → Option String)

unfoldable pub is_known : Connector → String → Bool
is_known h id = elim h.known_participant [ none ↦ true | some known ↦ known id ]

-- The address to dial: the roster's where there is a roster, the request's otherwise.
unfoldable pub base_url : Connector → String → String → Option String
base_url h provider_id connector_address = elim h.provider_address [
  | none ↦ some connector_address
  | some address ↦ address provider_id
]

-- An address that is not the one the request named goes through the guard too.
unfoldable pub check_dialed : (Reason → Body) → String → String → Act (Unit {0})
check_dialed error_body url connector_address = if url == connector_address then pure tt else (do
  allowed ← validate_outgoing_callback url
  require allowed (refusal 400 (error_body roster_address_refused)))

unfoldable pub refuse_expired_roster : (Reason → Body) → Connector → Act (Unit {0})
refuse_expired_roster error_body h = require h.usable (refusal 409 (error_body roster_expired))

unfoldable pub check_requested_address : (Reason → Body) → String → Act (Unit {0})
check_requested_address error_body connector_address = do
  allowed ← validate_outgoing_callback connector_address
  require allowed (refusal 400 (error_body address_refused))

unfoldable pub resolve_base_url : (Reason → Body) → Connector → String → String → Act String
resolve_base_url error_body h provider_id connector_address = do
  require (is_known h provider_id) (refusal 400 (error_body unknown_participant))
  url ←
      or_reply (base_url h provider_id connector_address)
        (refusal 400 (error_body no_roster_address))
  check_dialed error_body url connector_address
  pure url
