-- ===== src/Tests/Catalogs.antt =====
-- A catalog that is looked up, and the formats of a foreign one.
use Prim.Native.Nat.{◌*◌}
use dataspace_in_a_box.Base.{ℕ, ◌+◌, length, arith, true, some, [], ◌∷◌, ◌≡◌, refl}
use dataspace_in_a_box.Initiate.{is_known}
use dataspace_in_a_box.Catalog.{
  Catalog, catalog_error, filtering, handle_catalog_request, has_filter, build_catalog,
  build_datasets, build_dataset,
}
use dataspace_in_a_box.Catalog.Remote.{
  RemoteDataset, text, not_text, members, not_object, many, distributions, distribution_format,
  member, as_text, pick_format, format, as_read, read_datasets, read_distributions, read_offers,
  pairs, pairs_of, offers_of,
}
use dataspace_in_a_box.Catalog.Format.{readable, preferred, format_lem}
use dataspace_in_a_box.Catalog.Lookup.{
  Network, request_message, CatalogLookupResponse, found, handle_catalog_lookup, look_up,
  look_up_at, limited, fetch_catalog, read_response, accept_catalog, answer_with,
}
use dataspace_in_a_box.Catalog.Discovery.{response_of, Discovered, handle_catalog_lookup-Discovered}
use dataspace_in_a_box.Catalog.Vetting.{Vetted, handle_catalog_lookup-Vetted}
use dataspace_in_a_box.Tests.Fixtures.{acme, connector}

-- A catalog of 400 bytes for each dataset.
abbrev encoded_size : Catalog → ℕ
encoded_size c = 200 + 400 * length c.dataset

-- The connector acme answers at every address.
abbrev network : Network
network = record {
  mint = λ aud. some "Bearer t";
  sendable = λ address. true;
  do_request = λ request.
      some (response_of encoded_size (handle_catalog_request acme (some request.message)));
}

handle_catalog_lookup-Discovered_example :
    (r : CatalogLookupResponse) × (handle_catalog_lookup connector network "acme" ≡ found r)
    × Discovered acme 5 "https://bolt.example" r
unfolding is_known build_catalog build_datasets
handle_catalog_lookup-Discovered_example =
    handle_catalog_lookup-Discovered connector network acme 5 encoded_size
      (λ id. some "https://bolt.example") "https://bolt.example" "Bearer t" refl refl refl refl refl
      refl refl refl (omega arith)

abbrev answer : CatalogLookupResponse
answer = record {
  participant_id = "acme";
  connector_address = "https://bolt.example";
  datasets =
      record { dataset_id = "weather"; offer_id = "weather#offer"; format = "HTTP-PULL" } ∷ [];
}

lookup_finds : handle_catalog_lookup connector network "acme" ≡ found answer
unfolding handle_catalog_lookup look_up look_up_at fetch_catalog limited read_response
    accept_catalog answer_with is_known handle_catalog_request has_filter build_catalog
    build_datasets build_dataset as_read read_datasets read_distributions read_offers pairs pairs_of
    offers_of format distributions pick_format distribution_format member as_text
lookup_finds = refl

handle_catalog_lookup-Vetted_example : Vetted connector network "acme" answer
handle_catalog_lookup-Vetted_example =
    handle_catalog_lookup-Vetted connector network "acme" answer lookup_finds

-- The second format of the first node overrides the first one, and does not decode.
abbrev foreign : RemoteDataset
foreign = record {
  id = "urn:roads";
  has_policy = [];
  distribution = many (
      members (("format", text "HTTP-PULL") ∷ ("format", not_text) ∷ [])
      ∷ members (("Format", text "HTTP-PULL") ∷ [])
      ∷ not_object
      ∷ members (("format", text "AmazonS3") ∷ [])
      ∷ members (("format", text "HTTP-PUSH") ∷ [])
      ∷ []);
}

foreign_format : format foreign ≡ "AmazonS3"
unfolding format distributions pick_format distribution_format member as_text
foreign_format = refl

format_lem_example : format foreign ≡ preferred (readable (distributions foreign))
format_lem_example = format_lem foreign

filtered :
    handle_catalog_request acme (some (record request_message { filter = some "{}" }))
    ≡ catalog_error filtering
unfolding handle_catalog_request has_filter
filtered = refl
