-- ===== src/Catalog/Discovery.antt =====
-- From the catalog of one connector to the negotiation request of another: catalog.go,
-- catalog_handler.go, catalog_client.go and the decision of negotiation.go.
use Prim.Native.String.{◌++◌}
use dataspace_in_a_box.Base.{
  ℕ, suc, ◌≤◌, leb, arith, String, ◌≡◌, refl, sym, ap, ◌∙◌, inl, inr, Bool, true, false, Option,
  none, some, List, [], ◌∷◌, ◌==◌, All, length, Bool-cases, eq_true, eq_iff, if◌then◌else◌,
}
use dataspace_in_a_box.Config.{Config, Dataset, find_configured_dataset, find_dataset_in}
use dataspace_in_a_box.Negotiation.Decision.{
  offer_id_suffix, is_valid, decide_initial_request, decide_requested, outcome_agree,
  outcome_terminate,
}
use dataspace_in_a_box.Negotiation.Decision.Laws.{initial_known}
use dataspace_in_a_box.Initiate.{Connector, is_known}
use dataspace_in_a_box.Catalog.{
  Catalog, CatalogAnswer, catalog_error, served, build_dataset, build_datasets, build_catalog,
  handle_catalog_request, has_filter, served_format,
}
use dataspace_in_a_box.Catalog.Remote.{
  DatasetOffer, as_read, read_datasets, read_distributions, read_offers, pairs, pairs_of, offers_of,
  format, distributions, pick_format, distribution_format, member, as_text,
}
use dataspace_in_a_box.Catalog.Lookup.{
  Network, CatalogResponse, limited, max_catalog_response_bytes, request_message, request_to,
  accept_catalog, read_response, fetch_catalog, found, CatalogLookupResponse, answer_with,
  look_up_at, look_up, handle_catalog_lookup,
}

-- What a pair of the answer is for the connector that is asked.
pub record Negotiable (cfg : Config) (now : ℕ) (p : DatasetOffer) : Type 0 where
  pub dataset : Dataset
  pub configured : find_configured_dataset cfg p.dataset_id ≡ some dataset
  pub carried : p.format ≡ "HTTP-PULL"
  pub answer :
      decide_initial_request cfg p.dataset_id p.offer_id now
      ≡ (if is_valid dataset now then outcome_agree else outcome_terminate)

abbrev pair_of : Dataset → DatasetOffer
pair_of d = record { dataset_id = d.id; offer_id = d.id ++ offer_id_suffix; format = served_format }

abbrev advertised : List Dataset → List DatasetOffer
advertised [] = []
advertised (d ∷ ds) = pair_of d ∷ advertised ds

pairs-advertised :
    (url : String) (ds : List Dataset)
    → pairs_of (read_datasets (build_datasets url ds)) ≡ (advertised ds, 0)
unfolding pairs_of read_datasets build_datasets build_dataset read_offers read_distributions
    offers_of format distributions pick_format distribution_format member as_text
pairs-advertised url [] = refl
pairs-advertised url (d ∷ ds) = rw (pairs-advertised url ds) refl

-- A dataset with an id that is listed is found.
abbrev Found : List Dataset → Dataset → Type 0
Found all d = (e : Dataset) × (find_dataset_in all d.id ≡ some e) × (e.id ≡ d.id)

still-Found : (x : Dataset) (all : List Dataset) (d : Dataset) → Found all d → Found (x ∷ all) d
unfolding find_dataset_in
still-Found x all d (e, h, same) = elim (Bool-cases (x.id == d.id)) [
  | inl t ↦ (x, rw t refl, (eq_iff x.id d.id).0 t)
  | inr f ↦ (e, rw (f, h) refl, same)
]

all_still : (x : Dataset) (all ds : List Dataset) → All (Found all) ds → All (Found (x ∷ all)) ds
all_still x all [] h = tt
all_still x all (d ∷ ds) h = (still-Found x all d h.0, all_still x all ds h.1)

listed-Found : (ds : List Dataset) → All (Found ds) ds
unfolding find_dataset_in
listed-Found [] = tt
listed-Found (d ∷ ds) =
    ((d, rw (eq_true d.id d.id refl) refl, refl), all_still d ds ds (listed-Found ds))

asked : (v : Bool) → decide_requested true v ≡ (if v then outcome_agree else outcome_terminate)
unfolding decide_requested
asked true = refl
asked false = refl

Found-Negotiable :
    (cfg : Config) (now : ℕ) (d : Dataset) → Found cfg.datasets d → Negotiable cfg now (pair_of d)
unfolding find_configured_dataset
Found-Negotiable cfg now d (e, h, same) = record {
  dataset = e;
  configured = h;
  carried = refl;
  answer =
      initial_known cfg d.id (d.id ++ offer_id_suffix) now e h
      ∙ ap (λ b. decide_requested b (is_valid e now))
          (eq_true (d.id ++ offer_id_suffix) (e.id ++ offer_id_suffix)
            (ap (λ id. id ++ offer_id_suffix) (sym same)))
      ∙ asked (is_valid e now);
}

all-Negotiable :
    (cfg : Config) (now : ℕ) (ds : List Dataset)
    → All (Found cfg.datasets) ds
    → All (Negotiable cfg now) (advertised ds)
all-Negotiable cfg now [] h = tt
all-Negotiable cfg now (d ∷ ds) h = (Found-Negotiable cfg now d h.0, all-Negotiable cfg now ds h.1)

length-advertised : (ds : List Dataset) → length (advertised ds) ≡ length ds
length-advertised [] = refl
length-advertised (d ∷ ds) = ap suc (length-advertised ds)

-- The response that a catalog handler's answer makes on the wire, where `encoded_size` is the number of
-- bytes that the JSON encoder makes of a catalog. The body of a refusal is not read.
abbrev pub response_of : (Catalog → ℕ) → CatalogAnswer → CatalogResponse
response_of encoded_size (catalog_error x) = record { status = 400; size = 0; body = none }
response_of encoded_size (served c) = record {
  status = 200;
  size = encoded_size c;
  body = some (as_read c);
}

-- What the lookup finds at a connector with this configuration.
pub record Discovered (cfg : Config) (now : ℕ) (address : String) (r : CatalogLookupResponse)
    : Type 0 where
  pub participant : r.participant_id ≡ cfg.participant_id
  pub connector : r.connector_address ≡ address
  pub offers : All (Negotiable cfg now) r.datasets
  pub complete : length r.datasets ≡ length cfg.datasets

abbrev result_of : Config → String → CatalogLookupResponse
result_of cfg address = record {
  participant_id = cfg.participant_id;
  connector_address = address;
  datasets = (pairs (as_read (build_catalog cfg))).0;
}

result-Discovered :
    (cfg : Config) (now : ℕ) (address : String) → Discovered cfg now address (result_of cfg address)
unfolding pairs as_read build_catalog
result-Discovered cfg now address =
    let read =
      ap (λ (t : List DatasetOffer × ℕ). t.0) (pairs-advertised cfg.public_url cfg.datasets) in
    record {
      participant = refl;
      connector = refl;
      offers = rw read (all-Negotiable cfg now cfg.datasets (listed-Found cfg.datasets));
      complete = ap length read ∙ length-advertised cfg.datasets;
    }

served_request :
    (encoded_size : Catalog → ℕ) (cfg : Config)
    → encoded_size (build_catalog cfg) ≤ max_catalog_response_bytes
    → read_response
        (some (response_of encoded_size (handle_catalog_request cfg (some request_message))))
      ≡ accept_catalog (some (as_read (build_catalog cfg)))
unfolding handle_catalog_request has_filter read_response limited
served_request encoded_size cfg h =
    let small : leb (encoded_size (build_catalog cfg)) max_catalog_response_bytes ≡ true =
      ground arith in
    rw small refl

accepted :
    (cfg : Config)
    → (cfg.participant_id == "") ≡ false
    → accept_catalog (some (as_read (build_catalog cfg))) ≡ some (as_read (build_catalog cfg))
unfolding accept_catalog as_read build_catalog
accepted cfg named = rw named refl

matched :
    (cfg : Config) (address : String)
    → answer_with cfg.participant_id address (as_read (build_catalog cfg))
      ≡ found (result_of cfg address)
unfolding answer_with as_read build_catalog
matched cfg address = rw (eq_true cfg.participant_id cfg.participant_id refl) refl

module _ (h : Connector) (net : Network) (cfg : Config) (now : ℕ) (encoded_size : Catalog → ℕ) where
  module _ (provider_address : String → Option String) (address authorization : String) where
    -- Where the roster is usable and lists the provider with an address that the guard admits, a
    -- credential can be minted and the connector at that address answers the request of the lookup
    -- from its own configuration, with a participant id that is not empty and is the one asked for,
    -- and with a document of at most 1 MiB, the lookup finds one pair for each dataset of that configuration. A negotiation request that
    -- names such a pair names a configured dataset, and it is answered with an agreement where that
    -- dataset is valid at the time and with a termination where it is not. Each pair has the format
    -- that this connector serves.
    pub handle_catalog_lookup-Discovered :
        h.usable ≡ true
        → (cfg.participant_id == "") ≡ false
        → h.provider_address ≡ some provider_address
        → is_known h cfg.participant_id ≡ true
        → provider_address cfg.participant_id ≡ some address
        → net.sendable address ≡ true
        → net.mint cfg.participant_id ≡ some authorization
        → net.do_request (request_to address authorization)
          ≡ some (response_of encoded_size (handle_catalog_request cfg (some request_message)))
        → encoded_size (build_catalog cfg) ≤ max_catalog_response_bytes
        → (r : CatalogLookupResponse) × (handle_catalog_lookup h net cfg.participant_id ≡ found r)
          × Discovered cfg now address r
    unfolding handle_catalog_lookup look_up look_up_at answer_with fetch_catalog
    handle_catalog_lookup-Discovered usable named roster known listed sendable minted answered
          small =
        (
          result_of cfg address,
          rw
              (
                usable,
                named,
                roster,
                known,
                listed,
                sendable,
                minted,
                answered,
                served_request encoded_size cfg small,
                accepted cfg named,
              )
              (matched cfg address),
          result-Discovered cfg now address,
        )
