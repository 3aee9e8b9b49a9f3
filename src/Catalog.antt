-- ===== src/Catalog.antt =====
-- The catalog that this connector serves: internal/dsp/catalog.go and the two handlers of
-- internal/dsp/catalog_handler.go, which keep no state and answer from the configuration alone. A
-- document's constant `@type`s are left out, and so is the context of a catalog; that of a dataset is
-- there only where it is a document of its own.
pub mod Remote
pub mod Format
pub mod Lookup
pub mod Vetting
pub mod Discovery
use Prim.Native.String.{◌++◌}
use dataspace_in_a_box.Base.{
  String, Bool, true, false, not, ◌&&◌, Option, none, some, List, [], ◌∷◌, ◌==◌, contains,
  if◌then◌else◌,
}
use dataspace_in_a_box.Config.{Config, Dataset}
use dataspace_in_a_box.Message.{Permission, build_permission}
use dataspace_in_a_box.Negotiation.Build.{version_path}
use dataspace_in_a_box.Negotiation.Decision.{offer_id_suffix}
use dataspace_in_a_box.Envelope.{context_url}

abbrev pub catalog_path : String
catalog_path = version_path ++ "/catalog"

abbrev pub served_format : String
served_format = "HTTP-PULL"

pub record DataService : Type 0 where
  pub id : String
  pub endpoint_url : String

pub record Distribution : Type 0 where
  pub format : String
  pub access_service : DataService

pub record Offer : Type 0 where
  pub id : String
  pub permission : List Permission

-- A `Dataset` of catalog.go.
pub record DatasetNode : Type 0 where
  pub context : List String
  pub id : String
  pub has_policy : List Offer
  pub distribution : List Distribution

pub record Catalog : Type 0 where
  pub id : String
  pub participant_id : String
  pub dataset : List DatasetNode

abbrev pub service_at : String → DataService
service_at endpoint = record { id = endpoint; endpoint_url = endpoint }

unfoldable pub build_dataset : String → Dataset → DatasetNode
build_dataset public_url d = record {
  context = [];
  id = d.id;
  has_policy =
      record { id = d.id ++ offer_id_suffix; permission = build_permission d.validity_until } ∷ [];
  distribution =
      record { format = served_format; access_service = service_at (public_url ++ version_path) }
      ∷ [];
}

unfoldable pub build_datasets : String → List Dataset → List DatasetNode
build_datasets public_url [] = []
build_datasets public_url (d ∷ ds) = build_dataset public_url d ∷ build_datasets public_url ds

unfoldable pub build_catalog : Config → Catalog
build_catalog cfg = record {
  id = cfg.public_url ++ catalog_path;
  participant_id = cfg.participant_id;
  dataset = build_datasets cfg.public_url cfg.datasets;
}

unfoldable pub find_node : String → List Dataset → String → Option DatasetNode
find_node public_url [] id = none
find_node public_url (d ∷ ds) id =
    let rest = find_node public_url ds id in
    if d.id == id
    then some (record (build_dataset public_url d) { context = context_url ∷ [] })
    else rest

unfoldable pub find_dataset : Config → String → Option DatasetNode
find_dataset cfg id = find_node cfg.public_url cfg.datasets id

-- The filter is its raw JSON, `none` where the key is absent.
pub record CatalogRequestMessage : Type 0 where
  pub context : List String
  pub type_name : String
  pub filter : Option String

unfoldable pub has_filter : CatalogRequestMessage → Bool
has_filter m = elim m.filter [ none ↦ false | some raw ↦ not (raw == "") && not (raw == "null") ]

pub data CatalogRefusal : Type 0 where
  not_compact_form no_context wrong_type filtering : CatalogRefusal

pub data CatalogAnswer : Type 0 where
  catalog_error : CatalogRefusal → CatalogAnswer
  served : Catalog → CatalogAnswer

-- The body is `none` where it does not decode. Every refusal has status 400.
unfoldable pub handle_catalog_request : Config → Option CatalogRequestMessage → CatalogAnswer
handle_catalog_request cfg none = catalog_error not_compact_form
handle_catalog_request cfg (some msg) =
    if not (contains msg.context context_url)
    then catalog_error no_context
    else if not (msg.type_name == "CatalogRequestMessage")
    then catalog_error wrong_type
    else if has_filter msg
    then catalog_error filtering
    else served (build_catalog cfg)

-- Status 404 with a `CatalogError`, or 200.
pub data DatasetAnswer : Type 0 where
  no_such_dataset : String → DatasetAnswer
  served_dataset : DatasetNode → DatasetAnswer

unfoldable pub handle_dataset_request : Config → String → DatasetAnswer
handle_dataset_request cfg id = elim (find_dataset cfg id) [
  | none ↦ no_such_dataset id
  | some ds ↦ served_dataset ds
]
