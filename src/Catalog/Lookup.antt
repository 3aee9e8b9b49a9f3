-- ===== src/Catalog/Lookup.antt =====
-- The lookup of a counterparty's catalog: internal/dsp/catalog_client.go. It writes nothing down. The
-- credential, the guard over addresses and the counterparty stand as the fields of a record.
use Prim.Native.String.{◌++◌}
use dataspace_in_a_box.Base.{
  ℕ, String, Bool, not, Option, none, some, List, [], ◌∷◌, ◌==◌, ltb, leb, if◌then◌else◌,
}
use dataspace_in_a_box.Envelope.{context_url}
use dataspace_in_a_box.Initiate.{Connector, is_known}
use dataspace_in_a_box.Catalog.{CatalogRequestMessage}
use dataspace_in_a_box.Catalog.Remote.{RemoteCatalog, DatasetOffer, pairs}

pub record CatalogRequest : Type 0 where
  pub url : String
  pub message : CatalogRequestMessage
  pub authorization : String

-- `body` is what the document at the beginning of the body decodes to, `none` where it does not, and
-- `size` is the number of bytes up to its end.
pub record CatalogResponse : Type 0 where
  pub status : ℕ
  pub size : ℕ
  pub body : Option RemoteCatalog

-- `mint` is `mintOutboundCredential`, `none` where nothing may be sent; `sendable` is that
-- `validateOutgoingCallback` returns no error; `do_request` is `none` where there is no request or no
-- response.
pub record Network : Type 0 where
  pub mint : String → Option String
  pub sendable : String → Bool
  pub do_request : CatalogRequest → Option CatalogResponse

abbrev pub request_message : CatalogRequestMessage
request_message = record {
  context = context_url ∷ [];
  type_name = "CatalogRequestMessage";
  filter = none;
}

abbrev pub request_to : String → String → CatalogRequest
request_to base_url authorization = record {
  url = base_url ++ "/catalog/request";
  message = request_message;
  authorization = authorization;
}

unfoldable pub accept_catalog : Option RemoteCatalog → Option RemoteCatalog
accept_catalog none = none
accept_catalog (some c) = if c.participant_id == "" then none else some c

abbrev pub max_catalog_response_bytes : ℕ
max_catalog_response_bytes = 1048576

-- The decoder is given the bytes up to the limit only, and a document that is cut off does not decode.
unfoldable pub limited : CatalogResponse → Option RemoteCatalog
limited r = if leb r.size max_catalog_response_bytes then r.body else none

unfoldable pub read_response : Option CatalogResponse → Option RemoteCatalog
read_response none = none
read_response (some r) = if ltb r.status 300 then accept_catalog (limited r) else none

-- `none` for an error, whichever it is: the handler logs it and answers the same.
unfoldable pub fetch_catalog : Network → String → String → Option RemoteCatalog
fetch_catalog net base_url aud = elim (net.mint aud) [
  | none ↦ none
  | some authorization ↦ read_response (net.do_request (request_to base_url authorization))
]

pub data LookupRefusal : Type 0 where
  roster_expired provider_id_required no_roster unknown_participant no_address address_refused :
      LookupRefusal
  fetch_failed wrong_participant : LookupRefusal

pub record CatalogLookupResponse : Type 0 where
  pub participant_id : String
  pub connector_address : String
  pub datasets : List DatasetOffer

pub data LookupAnswer : Type 0 where
  rejected : ℕ → LookupRefusal → LookupAnswer
  found : CatalogLookupResponse → LookupAnswer

-- The check of what came back.
unfoldable pub answer_with : String → String → RemoteCatalog → LookupAnswer
answer_with provider_id address c =
    if c.participant_id == provider_id
    then found (record {
      participant_id = c.participant_id;
      connector_address = address;
      datasets = (pairs c).0;
    })
    else rejected 400 wrong_participant

unfoldable pub look_up_at : Network → String → String → LookupAnswer
look_up_at net provider_id address =
    if not (net.sendable address)
    then rejected 400 address_refused
    else elim (fetch_catalog net address provider_id) [
      | none ↦ rejected 502 fetch_failed
      | some c ↦ answer_with provider_id address c
    ]

unfoldable pub look_up : Connector → Network → String → (String → Option String) → LookupAnswer
look_up h net provider_id provider_address =
    if not (is_known h provider_id)
    then rejected 400 unknown_participant
    else elim (provider_address provider_id) [
      | none ↦ rejected 400 no_address
      | some address ↦ look_up_at net provider_id address
    ]

unfoldable pub handle_catalog_lookup : Connector → Network → String → LookupAnswer
handle_catalog_lookup h net provider_id =
    if not h.usable
    then rejected 409 roster_expired
    else if provider_id == ""
    then rejected 400 provider_id_required
    else elim h.provider_address [
      | none ↦ rejected 400 no_roster
      | some provider_address ↦ look_up h net provider_id provider_address
    ]
