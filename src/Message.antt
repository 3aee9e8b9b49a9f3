-- ===== src/Message.antt =====
-- The DSP messages that this connector sends and receives: internal/dsp/negotiation.go and
-- transfer.go. The constructor stands for `@type`; the constant `@context` of what is sent and the
-- random `@id` are left out.
use Prim.Native.Nat.{◌/◌}
use dataspace_in_a_box.Base.{ℕ, String, Option, none, some, List, [], ◌∷◌}
use dataspace_in_a_box.Negotiation.State.{NegotiationState}
use dataspace_in_a_box.Transfer.State.{TransferState}

-- A right operand either parses as an RFC 3339 time, given by its second, or it does not.
pub data Operand : Type 0 where
  rfc3339 : ℕ → Operand
  other_text : String → Operand

-- One element of a permission's `constraint`: it decodes as a `Constraint`, or it does not.
pub data RawConstraint : Type 0 where
  constraint : String → String → Operand → RawConstraint
  undecodable : RawConstraint

pub record Permission : Type 0 where
  pub action : String
  pub constraints : List RawConstraint

unfoldable pub build_permission : Option ℕ → List Permission
build_permission none = record { action = "use"; constraints = [] } ∷ []
build_permission (some t) =
    record {
      action = "use";
      constraints = constraint "dateTime" "lteq" (rfc3339 (t / 1_000_000_000)) ∷ [];
    }
    ∷ []

pub record NegotiationOffer : Type 0 where
  pub id : String
  pub target : String
  pub permission : List Permission

pub record AgreementNode : Type 0 where
  pub id : String
  pub target : String
  pub permission : List Permission
  pub assigner : String
  pub assignee : String
  pub timestamp : ℕ

pub record DataAddress : Type 0 where
  pub endpoint_type : String
  pub endpoint : String

-- What is pushed; the first two texts are the provider pid and the consumer pid.
pub data Message : Type 0 where
  offer_message : String → String → NegotiationOffer → Message
  agreement_message : String → String → AgreementNode → String → Message
  finalized_event : String → String → Message
  accepted_event : String → String → Message
  verification_message : String → String → Message
  termination_message : String → String → Message
  counter_request_message : String → String → NegotiationOffer → Message
  transfer_start_message : String → String → Option DataAddress → Message
  transfer_suspension_message : String → String → Message
  transfer_completion_message : String → String → Message
  transfer_termination_message : String → String → Message

-- A push: where it goes, what it says, and the participant that its credential is minted for.
pub record Push : Type 0 where
  pub url : String
  pub message : Message
  pub audience : String

-- The body of an answer. A refusal's sentence is a constructor.
pub data Reason : Type 0 where
  not_json context_required wrong_type consumer_pid_required offer_required callback_required :
      Reason
  agreement_id_required format_required wrong_event_type wrong_state changed_concurrently : Reason
  already_rerequested unknown_id not_yours roster_expired fields_required : Reason
  address_refused unknown_participant no_roster_address roster_address_refused : Reason
  unknown_agreement not_the_provider agreement_not_yours : Reason
  transfer_not_started no_data_configured window_closed range_beyond_end : Reason
  credential_required : Reason

pub data Body : Type 0 where
  no_body : Body
  negotiation_error transfer_error : Reason → Body
  negotiation_document : String → String → NegotiationState → Body
  transfer_document : String → String → TransferState → Body

pub record Reply : Type 0 where
  pub status : ℕ
  pub body : Body

-- `w.WriteHeader(http.StatusInternalServerError)`
abbrev pub internal_error : Reply
internal_error = record { status = 500; body = no_body }

abbrev pub reply_ok : Reply
reply_ok = record { status = 200; body = no_body }

abbrev pub refusal : ℕ → Body → Reply
refusal status body = record { status = status; body = body }
