-- ===== src/Catalog/Remote.antt =====
-- A counterparty's catalog as the consumer reads it: `remoteCatalog` and its methods in
-- internal/dsp/catalog.go. A distribution stays raw JSON there; here it is what decoding can tell
-- apart of it. `as_read` is what decoding makes of the JSON of a catalog that this connector emits.
use dataspace_in_a_box.Base.{
  ℕ, suc, String, Option, none, some, List, [], ◌∷◌, ◌++◌, ◌==◌, if◌then◌else◌,
}
use dataspace_in_a_box.Catalog.{Distribution, Offer, DatasetNode, Catalog, served_format}

-- A member's value: a text, or something that does not decode into a string. A null decodes into the
-- empty string.
pub data Value : Type 0 where
  text : String → Value
  not_text : Value

-- A distribution node: the members of an object in their order, or something else.
pub data Node : Type 0 where
  members : List (String × Value) → Node
  not_object : Node

-- The value of `distribution`: an array or null decodes into the list of its elements, empty for
-- null; anything else is one node.
pub data RawDistributions : Type 0 where
  many : List Node → RawDistributions
  lone : Node → RawDistributions

pub record RemoteOffer : Type 0 where
  pub id : String

pub record RemoteDataset : Type 0 where
  pub id : String
  pub has_policy : List RemoteOffer
  pub distribution : RawDistributions

pub record RemoteCatalog : Type 0 where
  pub participant_id : String
  pub dataset : List RemoteDataset
  pub catalog : List String

unfoldable pub distributions : RemoteDataset → List Node
distributions d = elim d.distribution [ many nodes ↦ nodes | lone node ↦ node ∷ [] ]

-- The value under a key of a decoded map: of two members with one name the last counts.
unfoldable pub member : String → List (String × Value) → Option Value
member key [] = none
member key ((name, value) ∷ rest) = elim (member key rest) [
  | none ↦ if name == key then some value else none
  | some later ↦ some later
]

unfoldable pub as_text : Option Value → String
as_text none = ""
as_text (some (text s)) = s
as_text (some not_text) = ""

unfoldable pub distribution_format : Node → String
distribution_format (members ms) = as_text (member "format" ms)
distribution_format not_object = ""

-- The loop of `format`, with what is advertised so far.
unfoldable pub pick_format : String → List Node → String
pick_format advertised [] = advertised
pick_format advertised (raw ∷ rest) =
    let f = distribution_format raw in
    let kept = pick_format advertised rest in
    let noted = pick_format f rest in
    if f == ""
    then kept
    else if f == served_format
    then f
    else if advertised == ""
    then noted
    else kept

unfoldable pub format : RemoteDataset → String
format d = pick_format "" (distributions d)

-- One pair that an initiate call can name.
pub record DatasetOffer : Type 0 where
  pub dataset_id : String
  pub offer_id : String
  pub format : String

unfoldable pub offers_of : String → String → List RemoteOffer → List DatasetOffer
offers_of id fmt [] = []
offers_of id fmt (o ∷ os) =
    record { dataset_id = id; offer_id = o.id; format = fmt } ∷ offers_of id fmt os

-- The pairs, and how many datasets were dropped for advertising no offer.
unfoldable pub pairs_of : List RemoteDataset → List DatasetOffer × ℕ
pairs_of [] = ([], 0)
pairs_of (d ∷ ds) =
    let (out, skipped) = pairs_of ds in
    elim d.has_policy [
      | [] ↦ (out, suc skipped)
      | o ∷ os ↦ (offers_of d.id (format d) (o ∷ os) ++ out, skipped)
    ]

unfoldable pub pairs : RemoteCatalog → List DatasetOffer × ℕ
pairs c = pairs_of c.dataset

unfoldable pub read_distributions : List Distribution → List Node
read_distributions [] = []
read_distributions (d ∷ ds) =
    members (
      ("@type", text "Distribution") ∷ ("format", text d.format) ∷ ("accessService", not_text) ∷ [])
    ∷ read_distributions ds

unfoldable pub read_offers : List Offer → List RemoteOffer
read_offers [] = []
read_offers (o ∷ os) = record { id = o.id } ∷ read_offers os

unfoldable pub read_datasets : List DatasetNode → List RemoteDataset
read_datasets [] = []
read_datasets (d ∷ ds) =
    record {
      id = d.id;
      has_policy = read_offers d.has_policy;
      distribution = many (read_distributions d.distribution);
    }
    ∷ read_datasets ds

unfoldable pub as_read : Catalog → RemoteCatalog
as_read c = record {
  participant_id = c.participant_id;
  dataset = read_datasets c.dataset;
  catalog = [];
}
