-- ===== src/Mgmt/Import.antt =====
-- The import of an agreement, and who may call the management API.
use dataspace_in_a_box.Base.{
  ℕ, String, ◌≡◌, ◌↔◌, ◌≢◌, ◌⊎◌, inl, inr, true, false, Option, none, some, [], ◌∷◌, ◌++◌, ◌==◌,
  eq_iff, eq_false, Option-cases, arith, if◌then◌else◌,
}
use dataspace_in_a_box.Action.{Result, ok, err, Env, World}
use dataspace_in_a_box.Guarantee.{Safe, safe_rules}
use dataspace_in_a_box.Store.Table.{find}
use dataspace_in_a_box.Store.Rows.{Agreement, Store, agreement_key}
use dataspace_in_a_box.Store.Safety.{Safe-get_agreement, Safe-create_agreement}
use dataspace_in_a_box.Store.Swap.{Undisturbed}
use dataspace_in_a_box.Mgmt.{
  bare, cut_bearer_prefix, presents, authenticated, ImportBody, after_create, imported_agreement,
  import_agreement,
}

Safe-after_create : (body : ImportBody) (r : Result (Unit {0})) → Safe (after_create body r)
unfolding after_create
Safe-after_create body (ok u) = search safe_rules
Safe-after_create body (err x) = search (safe_rules, Safe-get_agreement)

-- The import keeps the guarantee: run beside the protocol's goroutines, it adds at most one agreement.
pub Safe-import_agreement : (decoded : Option ImportBody) → Safe (import_agreement decoded)
unfolding import_agreement
Safe-import_agreement decoded =
    search (safe_rules, Safe-create_agreement, Safe-after_create) depth 20

-- A token opens the management API exactly where it is set and the header is the scheme, in any case
-- of its letters, followed by the token.
pub authenticated_iff :
    (token header : String)
    → (authenticated token header ≡ true) ↔ ((token ≢ "") × (cut_bearer_prefix header ≡ some token))
unfolding authenticated presents
authenticated_iff token header = elim (Option-cases (cut_bearer_prefix header)) [
  | inl e ↦ (λ h. absurd (ground arith), λ h. absurd (ground arith))
  | inr (presented, e) ↦ (
    λ h. (
      λ empty. absurd (ground (arith, eq_iff token "")),
      ground (arith, eq_iff token "", eq_iff presented token),
    ),
    λ h.
        let set : (token == "") ≡ false = eq_false token "" h.0 in
        let same : presented ≡ token = ground arith in
        rw e (rw set ((eq_iff presented token).1 same)),
  )
]

-- What a database with the new row answers, and what the import says of it.
abbrev pub Imported : ImportBody → ℕ → Store → World → Type 0
Imported body now s w' =
    (j : String)
    → find agreement_key j w'.store.agreements ≡ (
        if body.agreement_id == j
        then some (imported_agreement body now)
        else find agreement_key j s.agreements)

module _ (body : ImportBody) (e : Env) (w : World) (u : Undisturbed e) where
  -- An import whose two ids are there.
  abbrev pub Placed : Type 0
  Placed =
      ((find agreement_key body.agreement_id w.store.agreements ≡ none)
        × ((import_agreement (some body) e w).1.replies ≡ w.replies ++ bare 201 ∷ [])
        × Imported body (e.now w.tick) w.store (import_agreement (some body) e w).1)
      ⊎ ((a : Agreement) × (find agreement_key body.agreement_id w.store.agreements ≡ some a)
          × ((import_agreement (some body) e w).1.replies ≡ w.replies ++ bare 409 ∷ [])
          × ((import_agreement (some body) e w).1.store ≡ w.store))
