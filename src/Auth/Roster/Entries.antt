-- ===== src/Auth/Roster/Entries.antt =====
-- What is known of a participant once the entries of a roster have been read.
use mathlib.Core.Path.{subst}
use dataspace_in_a_box.Base.{
  eq_refl, String, ◌≡◌, refl, ◌∙◌, inl, inr, Bool, true, false, Option, none, some, List, [], ◌∷◌,
  ◌==◌, eq_iff, length, Bool-cases, Option-cases, arith, if◌then◌else◌,
}
use dataspace_in_a_box.Range.{Bytes}
use dataspace_in_a_box.Auth.Roster.{
  RosterEntry, RosterCodec, RosterResult, ok, err, Roster, value_of, key_for, address_for, key_size,
  ◌>>=◌, add_address, is_listed, add_entry, add_entries,
}

-- What one entry adds.
record Added {Signer Secret : Type 0} (codec : RosterCodec Signer Secret) (p : RosterEntry)
    (r r' : Roster) : Type 0 where
  fresh : key_for r p.id ≡ none
  raw : Bytes
  decoded : codec.decode p.public_key ≡ some raw
  sized : length raw ≡ key_size
  keys : r'.keys ≡ (p.id, raw) ∷ r.keys
  addresses : r'.addresses ≡ (
      if p.connector_address == "" then r.addresses else (p.id, p.connector_address) ∷ r.addresses)
  version : r'.version ≡ r.version
  expires_at : r'.expires_at ≡ r.expires_at

module _ {Signer Secret : Type 0} (codec : RosterCodec Signer Secret) where
  add_entry-Added :
      (p : RosterEntry) (r r' : Roster) → add_entry codec p r ≡ ok r' → Added codec p r r'
  unfolding add_entry add_address is_listed
  add_entry-Added p r r' h = elim (Option-cases (codec.decode p.public_key)) [
    | inl e ↦ absurd (ground arith)
    | inr (raw, e) ↦ record {
      fresh = ground arith;
      raw = raw;
      decoded = e;
      sized = ground arith;
      keys = ground arith;
      addresses = ground arith;
      version = ground arith;
      expires_at = ground arith;
    }
  ]

-- A chain that succeeds, taken apart: its first step gave a value, and the rest succeeded on it.
pub chain_ok :
    {A B : Type 0} (first : RosterResult A) (rest : A → RosterResult B) {b : B}
    → (first >>= rest) ≡ ok b
    → (a : A) × (rest a ≡ ok b) × (first ≡ ok a)
chain_ok (err x) rest succeeded = absurd (ground arith)
chain_ok (ok a) rest succeeded = (a, succeeded, refl)

unfoldable pub entry_of : String → List RosterEntry → Option RosterEntry
entry_of id [] = none
entry_of id (p ∷ ps) = if p.id == id then some p else entry_of id ps

-- No id stands twice.
abbrev pub Distinct : List RosterEntry → Type 0
Distinct [] = Unit
Distinct (p ∷ ps) = (entry_of p.id ps ≡ none) × Distinct ps

abbrev pub or_else : {A : Type 0} → Option A → Option A → Option A
or_else none b = b
or_else (some a) b = some a

abbrev pub address_in : RosterEntry → Option String
address_in p = if p.connector_address == "" then none else some p.connector_address

unfoldable pub known_address : List RosterEntry → String → Option String
known_address ps id = elim (entry_of id ps) [ none ↦ none | some p ↦ address_in p ]

fresh_at :
    (p : RosterEntry) (r : Roster) (id : String)
    → key_for r p.id ≡ none
    → (p.id == id) ≡ true
    → key_for r id ≡ none
fresh_at p r id h e = subst (λ x. key_for r x ≡ none) ((eq_iff p.id id).0 e) h

no_key_in : (r : Roster) (id : String) → r.keys ≡ [] → key_for r id ≡ none
unfolding key_for value_of
no_key_in r id h = rw h refl

no_address_in : (r : Roster) (id : String) → r.addresses ≡ [] → address_for r id ≡ none
unfolding address_for value_of
no_address_in r id h = rw h refl

module _ {Signer Secret : Type 0} (codec : RosterCodec Signer Secret) where
  unfoldable pub known_key : List RosterEntry → String → Option Bytes
  known_key ps id = elim (entry_of id ps) [ none ↦ none | some p ↦ codec.decode p.public_key ]

  key_for-Added :
      (p : RosterEntry) (r r' : Roster) (id : String) (added : Added codec p r r')
      → key_for r' id ≡ (if p.id == id then some added.raw else key_for r id)
  unfolding key_for value_of
  key_for-Added p r r' id added = rw added.keys refl

  -- Before and after the entries, for one id.
  keys_after :
      (ps : List RosterEntry) (r r' : Roster) (id : String)
      → add_entries codec ps r ≡ ok r'
      → key_for r' id ≡ or_else (key_for r id) (known_key ps id)
  unfolding add_entries known_key entry_of
  keys_after [] r r' id h = ground arith
  keys_after (p ∷ ps) r r' id h =
      let (r1, rest, one) = chain_ok (add_entry codec p r) (add_entries codec ps) h in
      let added = add_entry-Added codec p r r1 one in
      ground (
        arith,
        keys_after ps r1 r' id rest,
        key_for-Added p r r1 id added,
        eq_iff p.id id,
        added.fresh,
        added.decoded,
      )

  -- Who has no key has no address.
  abbrev Keyed : Roster → String → Type 0
  Keyed r id = key_for r id ≡ none → address_for r id ≡ none

  address_for-Added :
      (p : RosterEntry) (r r' : Roster) (id : String) (added : Added codec p r r')
      → address_for r' id
        ≡ (if p.id == id then or_else (address_in p) (address_for r id) else address_for r id)
  unfolding address_for value_of
  address_for-Added p r r' id added =
      rw added.addresses (elim (Bool-cases (p.connector_address == "")) [
        | inl e ↦ rw e (same_both (p.id == id) _)
        | inr e ↦ rw e refl
      ])
    where
      same_both : (b : Bool) (x : Option String) → x ≡ (if b then x else x)
      same_both true x = refl
      same_both false x = refl

  Keyed-Added :
      (p : RosterEntry) (r r' : Roster) (id : String)
      → Added codec p r r'
      → Keyed r id
      → Keyed r' id
  Keyed-Added p r r' id added keyed h =
      ground (arith, key_for-Added p r r' id added, address_for-Added p r r' id added)

  listed_once :
      (ps : List RosterEntry) (r r' : Roster) (id : String) (key : Bytes)
      → add_entries codec ps r ≡ ok r'
      → key_for r id ≡ some key
      → entry_of id ps ≡ none
  unfolding add_entries entry_of
  listed_once [] r r' id key h listed = refl
  listed_once (p ∷ ps) r r' id key h listed =
      let (r1, rest, one) = chain_ok (add_entry codec p r) (add_entries codec ps) h in
      let added = add_entry-Added codec p r r1 one in
      elim (Bool-cases (p.id == id)) [
        | inl e ↦
            let absent : key_for r id ≡ none = fresh_at p r id added.fresh e in
            absurd (ground arith)
        | inr e ↦
            let still : key_for r1 id ≡ some key = key_for-Added p r r1 id added ∙ rw e listed in
            rw e (listed_once ps r1 r' id key rest still)
      ]

  addresses_after :
      (ps : List RosterEntry) (r r' : Roster) (id : String)
      → add_entries codec ps r ≡ ok r'
      → Keyed r id
      → address_for r' id ≡ or_else (address_for r id) (known_address ps id)
  unfolding add_entries known_address entry_of
  addresses_after [] r r' id h keyed = ground arith
  addresses_after (p ∷ ps) r r' id h keyed =
      let (r1, rest, one) = chain_ok (add_entry codec p r) (add_entries codec ps) h in
      let added = add_entry-Added codec p r r1 one in
      let later = addresses_after ps r1 r' id rest (Keyed-Added p r r1 id added keyed) in
      elim (Bool-cases (p.id == id)) [
        | inl e ↦
            let bare : address_for r id ≡ none = keyed (fresh_at p r id added.fresh e) in
            let once : entry_of id ps ≡ none =
              listed_once ps r1 r' id added.raw rest (key_for-Added p r r1 id added ∙ rw e refl) in
            ground (arith, later, address_for-Added p r r1 id added, bare, once)
        | inr e ↦ ground (arith, later, address_for-Added p r r1 id added)
      ]

  pub entries-Distinct :
      (ps : List RosterEntry) (r r' : Roster) → add_entries codec ps r ≡ ok r' → Distinct ps
  unfolding add_entries
  entries-Distinct [] r r' h = tt
  entries-Distinct (p ∷ ps) r r' h =
      let (r1, rest, one) = chain_ok (add_entry codec p r) (add_entries codec ps) h in
      let added = add_entry-Added codec p r r1 one in
      (
        listed_once ps r1 r' p.id added.raw rest
            (key_for-Added p r r1 p.id added ∙ rw (eq_refl p.id) refl),
        entries-Distinct ps r1 r' rest,
      )

  -- Read into a roster without participants.
  pub keys_read :
      (ps : List RosterEntry) (r r' : Roster) (id : String)
      → r.keys ≡ []
      → add_entries codec ps r ≡ ok r'
      → key_for r' id ≡ known_key ps id
  keys_read ps r r' id empty h = keys_after ps r r' id h ∙ rw (no_key_in r id empty) refl

  pub addresses_read :
      (ps : List RosterEntry) (r r' : Roster) (id : String)
      → r.addresses ≡ []
      → add_entries codec ps r ≡ ok r'
      → address_for r' id ≡ known_address ps id
  addresses_read ps r r' id empty h =
      addresses_after ps r r' id h (λ x. no_address_in r id empty)
      ∙ rw (no_address_in r id empty) refl

  pub entries_keep :
      (ps : List RosterEntry) (r r' : Roster)
      → add_entries codec ps r ≡ ok r'
      → (r'.version ≡ r.version) × (r'.expires_at ≡ r.expires_at)
  unfolding add_entries
  entries_keep [] r r' h = ground arith
  entries_keep (p ∷ ps) r r' h =
      let (r1, rest, one) = chain_ok (add_entry codec p r) (add_entries codec ps) h in
      let added = add_entry-Added codec p r r1 one in
      let (version, expires) = entries_keep ps r1 r' rest in
      (version ∙ added.version, expires ∙ added.expires_at)
