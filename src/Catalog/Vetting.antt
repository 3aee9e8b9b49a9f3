-- ===== src/Catalog/Vetting.antt =====
-- What the catalog lookup of internal/dsp/catalog_client.go has checked when it finds something.
use dataspace_in_a_box.Base.{
  ◌≤◌, String, ◌≡◌, refl, sym, ap, ◌∙◌, inl, inr, true, Option, none, some, ◌==◌, ltb, eq_iff,
  Bool-cases, Option-cases, arith,
}
use mathlib.Core.Path.{subst}
use dataspace_in_a_box.Initiate.{Connector, is_known}
use dataspace_in_a_box.Catalog.Remote.{RemoteCatalog, pairs}
use dataspace_in_a_box.Catalog.Lookup.{
  Network, CatalogResponse, request_to, accept_catalog, limited, max_catalog_response_bytes,
  read_response, fetch_catalog, found, CatalogLookupResponse, answer_with, look_up_at, look_up,
  handle_catalog_lookup,
}

module _ (h : Connector) (net : Network) (provider_id : String) where
  -- The answer names the provider that was asked for and the address that was dialed, and its pairs
  -- are those of a catalog that came from there.
  pub record Fetched (address : String) (r : CatalogLookupResponse) : Type 0 where
    pub authorization : String
    pub response : CatalogResponse
    pub source : RemoteCatalog
    pub minted : net.mint provider_id ≡ some authorization
    pub dialed : net.do_request (request_to address authorization) ≡ some response
    pub good : ltb response.status 300 ≡ true
    pub small : response.size ≤ max_catalog_response_bytes
    pub body : response.body ≡ some source
    pub participant : source.participant_id ≡ provider_id
    pub named : r.participant_id ≡ provider_id
    pub connector : r.connector_address ≡ address
    pub offers : r.datasets ≡ (pairs source).0

  pub record Vetted (r : CatalogLookupResponse) : Type 0 where
    pub lookup : String → Option String
    pub usable : h.usable ≡ true
    pub roster : h.provider_address ≡ some lookup
    pub known : is_known h provider_id ≡ true
    pub listed : lookup provider_id ≡ some r.connector_address
    pub sendable : net.sendable r.connector_address ≡ true
    pub fetched : Fetched r.connector_address r

  response_accepted :
      (o : Option CatalogResponse) (c : RemoteCatalog)
      → read_response o ≡ some c
      → (r : CatalogResponse) × (o ≡ some r)
        × (ltb r.status 300 ≡ true)
        × (r.size ≤ max_catalog_response_bytes)
        × (r.body ≡ some c)
  unfolding read_response accept_catalog limited
  response_accepted none c e = absurd (ground arith)
  response_accepted (some r) c e = elim (Bool-cases (ltb r.status 300)) [
    | inr f ↦ absurd (ground arith)
    | inl t ↦ elim (Option-cases (limited r)) [
      | inl n ↦ absurd (ground arith)
      | inr (b, s) ↦ (r, refl, t, ground arith, ground arith)
    ]
  ]

  look_up_at-Fetched :
      (address : String) (r : CatalogLookupResponse)
      → look_up_at net provider_id address ≡ found r
      → (net.sendable address ≡ true) × Fetched address r
  unfolding look_up_at fetch_catalog answer_with
  look_up_at-Fetched address r e = elim (Bool-cases (net.sendable address)) [
    | inr f ↦ absurd (ground arith)
    | inl t ↦ elim (Option-cases (net.mint provider_id)) [
      | inl n ↦ absurd (ground arith)
      | inr (authorization, m) ↦
          elim (Option-cases (read_response (net.do_request (request_to address authorization)))) [
            | inl n ↦ absurd (ground arith)
            | inr (c, s) ↦ elim (Bool-cases (c.participant_id == provider_id)) [
              | inr f ↦ absurd (ground arith)
              | inl same ↦
                  let (response, dialed, good, small, body) = response_accepted _ c s in
                  let name : c.participant_id ≡ provider_id = (eq_iff _ _).0 same in
                  (
                    t,
                    record {
                      authorization = authorization;
                      response = response;
                      source = c;
                      minted = m;
                      dialed = dialed;
                      good = good;
                      small = small;
                      body = body;
                      participant = name;
                      named = ground arith;
                      connector = ground arith;
                      offers = ground arith;
                    },
                  )
            ]
          ]
    ]
  ]

  -- A lookup that finds something was asked for a provider that the roster lists, while the roster was
  -- usable; the address that it reports is the roster's, it is one that the guard admits, and it is
  -- where the request went, with the authorization that the minter gave for the provider: it allowed
  -- the request, if only unsigned. The response has a status below 300 and, in at most 1 MiB, a catalog that declares
  -- the participant asked for, and the pairs are those of that catalog.
  pub handle_catalog_lookup-Vetted :
      (r : CatalogLookupResponse) → handle_catalog_lookup h net provider_id ≡ found r → Vetted r
  unfolding handle_catalog_lookup look_up
  handle_catalog_lookup-Vetted r e = elim (Bool-cases h.usable) [
    | inr f ↦ absurd (ground arith)
    | inl usable ↦ elim (Bool-cases (provider_id == "")) [
      | inl empty ↦ absurd (ground arith)
      | inr some_id ↦ elim (Option-cases h.provider_address) [
        | inl n ↦ absurd (ground arith)
        | inr (lookup, roster) ↦ elim (Bool-cases (is_known h provider_id)) [
          | inr f ↦ absurd (ground arith)
          | inl known ↦ elim (Option-cases (lookup provider_id)) [
            | inl n ↦ absurd (ground arith)
            | inr (address, listed) ↦
                let at : look_up_at net provider_id address ≡ found r = ground arith in
                let (sendable, fetched) = look_up_at-Fetched address r at in
                vetted lookup usable roster known address listed sendable fetched
          ]
        ]
      ]
    ]
  ]
    where
      vetted :
          (lookup : String → Option String)
          → h.usable ≡ true
          → h.provider_address ≡ some lookup
          → is_known h provider_id ≡ true
          → (address : String) → lookup provider_id ≡ some address
          → net.sendable address ≡ true
          → Fetched address r
          → Vetted r
      vetted lookup usable roster known address listed sendable fetched =
          let there : address ≡ r.connector_address = sym fetched.connector in
          record {
            lookup = lookup;
            usable = usable;
            roster = roster;
            known = known;
            listed = listed ∙ ap some there;
            sendable = subst (λ a. net.sendable a ≡ true) there sendable;
            fetched = subst (λ a. Fetched a r) there fetched;
          }
