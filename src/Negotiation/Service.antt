-- ===== src/Negotiation/Service.antt =====
-- The negotiation endpoints together: which handler of internal/dsp serves which call. A call is a
-- route of internal/dsp/router.go or the initiate hook of the management API; its `Option` is the
-- request's body, `none` where that does not decode.
use dataspace_in_a_box.Base.{Option}
use dataspace_in_a_box.Action.{Act}
use dataspace_in_a_box.Envelope.{Request}
use dataspace_in_a_box.Initiate.{Connector}
use dataspace_in_a_box.Negotiation.Provider.{
  RequestMessage, EventBody, EnvelopeBody, handle_contract_request, handle_re_request,
  handle_verification,
}
use dataspace_in_a_box.Negotiation.Consumer.{
  InitiateBody, OfferBody, AgreementBody, handle_initiate, handle_offers, handle_agreement,
}
use dataspace_in_a_box.Negotiation.Endpoints.{
  handle_event, handle_termination, handle_get_negotiation,
}

pub data Call : Type 0 where
  contract_request re_request : Option RequestMessage → Call
  event : Option EventBody → Call
  verification termination : Option EnvelopeBody → Call
  get_negotiation : Call
  initiate : Option InitiateBody → Call
  offers : Option OfferBody → Call
  agreement : Option AgreementBody → Call

unfoldable pub serve : Connector → Request → Call → Act (Unit {0})
serve h r (contract_request body) = handle_contract_request h.cfg r body
serve h r (re_request body) = handle_re_request h.cfg r body
serve h r (event body) = handle_event h.cfg r body
serve h r (verification body) = handle_verification h.cfg r body
serve h r (termination body) = handle_termination h.cfg r body
serve h r get_negotiation = handle_get_negotiation h.cfg r
serve h r (initiate body) = handle_initiate h body
serve h r (offers body) = handle_offers h.cfg r body
serve h r (agreement body) = handle_agreement h.cfg r body
