-- ===== src/Negotiation/Decision/Laws.antt =====
-- What the decisions of internal/dsp/negotiation.go come to, in words that are not theirs.
use mathlib.Core.Path.{subst}
use Prim.Native.String.{◌++◌}
use dataspace_in_a_box.Base.{
  ℕ, String, ◌<◌, ◌≡◌, refl, sym, ◌∙◌, ◌↔◌, inl, inr, Bool, true, false, not, ◌&&◌, ◌||◌, Option,
  none, some, List, [], ◌∷◌, ◌==◌, eq_iff, false≢true, All, Option-cases, arith,
}
use dataspace_in_a_box.Config.{Dataset, Config, find_configured_dataset}
use dataspace_in_a_box.Message.{
  Operand, rfc3339, other_text, RawConstraint, constraint, undecodable, Permission,
  build_permission,
}
use dataspace_in_a_box.Negotiation.Decision.{
  offer_id_suffix, is_valid, decide_requested, decide_initial_request, is_timestamp,
  is_validity_period, is_validity_period_constraint, is_empty, has_unenforceable_constraint,
}

-- Without a date a dataset is always offered; with one, up to that instant and not at it.
abbrev pub Valid : Dataset → ℕ → Type 0
Valid ds now = elim ds.validity_until [ none ↦ Unit | some until ↦ now < until ]

pub is_valid_iff : (ds : Dataset) (now : ℕ) → (is_valid ds now ≡ true) ↔ Valid ds now
unfolding is_valid
is_valid_iff ds now = elim (Option-cases ds.validity_until) [
  | inl h ↦ rw h (λ t. tt, λ t. refl)
  | inr (u, h) ↦ rw h (λ t. ground arith, λ t. ground arith)
]

-- The dataset that a request names.
abbrev pub Configured : Config → String → Dataset → Type 0
Configured cfg id ds = find_configured_dataset cfg id ≡ some ds

some_inj : (d ds : Dataset) → some d ≡ some ds → d ≡ ds
some_inj d ds h = ground arith

-- A statement about the dataset that is found is one about this one.
only :
    (P : Dataset → Type 0) (o : Option Dataset) (ds : Dataset)
    → o ≡ some ds
    → (d : Dataset) × (o ≡ some d) × P d
    → P ds
only P o ds h (d, c, p) = subst P (some_inj d ds (sym c ∙ h)) p

pushes_agreement : (b v : Bool) → (decide_requested b v).push_agreement ≡ (b && v)
unfolding decide_requested
pushes_agreement b v = ground arith

pushes_termination : (b v : Bool) → (decide_requested b v).push_termination ≡ not v
unfolding decide_requested
pushes_termination b v = ground arith

pushes_offer : (b v : Bool) → (decide_requested b v).push_offer ≡ not b
unfolding decide_requested
pushes_offer b v = ground arith

both : (b v : Bool) → (b && v) ≡ true → (b ≡ true) × (v ≡ true)
both b v h = ground arith

three : (a b c : Bool) → (a && b && c) ≡ true → (a ≡ true) × (b ≡ true)
three a b c h = ground arith

neither : (a b : Bool) → (a || b) ≡ false → (a ≡ false) × (b ≡ false)
neither a b h = ground arith

not-true_iff : (P : Type 0) (b : Bool) → (b ≡ true) ↔ P → (not b ≡ true) ↔ (P → ⊥)
not-true_iff P true h = (λ e. absurd (ground arith), λ n. absurd (n (h.0 refl)))
not-true_iff P false h = (λ e p. absurd (false≢true (h.1 p)), λ n. refl)

module _ (cfg : Config) (id offer_id : String) (now : ℕ) where
  -- The three pushes of a decision, each with the condition under which a new request leads to it.
  pub record Routed : Type 0 where
    pub agrees : ((decide_initial_request cfg id offer_id now).push_agreement ≡ true) ↔ (
        (ds : Dataset) × Configured cfg id ds
        × (offer_id ≡ ds.id ++ offer_id_suffix)
        × Valid ds now)
    pub terminates :
        ((decide_initial_request cfg id offer_id now).push_termination ≡ true)
        ↔ ((ds : Dataset) × Configured cfg id ds × (Valid ds now → ⊥))
    pub offers :
        ((decide_initial_request cfg id offer_id now).push_offer ≡ true)
        ↔ ((ds : Dataset) × Configured cfg id ds × ((offer_id ≡ ds.id ++ offer_id_suffix) → ⊥))

  routed_unknown : find_configured_dataset cfg id ≡ none → Routed
  unfolding decide_initial_request
  routed_unknown h = record {
    agrees = rw h (λ e. absurd (ground arith), λ t. absurd (ground (arith, t.1)));
    terminates = rw h (λ e. absurd (ground arith), λ t. absurd (ground (arith, t.1)));
    offers = rw h (λ e. absurd (ground arith), λ t. absurd (ground (arith, t.1)));
  }

  pub initial_known :
      (ds : Dataset)
      → find_configured_dataset cfg id ≡ some ds
      → decide_initial_request cfg id offer_id now
        ≡ decide_requested (offer_id == (ds.id ++ offer_id_suffix)) (is_valid ds now)
  unfolding decide_initial_request
  initial_known ds h = rw (h, decide_initial_request) refl

  routed_known : (ds : Dataset) → find_configured_dataset cfg id ≡ some ds → Routed
  routed_known ds h =
      let b = offer_id == (ds.id ++ offer_id_suffix) in
      let v = is_valid ds now in
      let named = eq_iff offer_id (ds.id ++ offer_id_suffix) in
      let valid = is_valid_iff ds now in
      let k = initial_known ds h in
      record {
        agrees =
            rw (k, pushes_agreement b v)
              (
                λ e. let (eb, ev) = both b v e in (ds, h, named.0 eb, valid.0 ev),
                λ t.
                    let (d, c, p, q) = t in
                    let (o, y) =
                      only (λ d. (offer_id ≡ d.id ++ offer_id_suffix) × Valid d now) _ ds h
                        (d, c, (p, q)) in
                    rw (named.1 o) (valid.1 y),
              );
        terminates =
            rw (k, pushes_termination b v)
              (
                λ e. (ds, h, (not-true_iff (Valid ds now) v valid).0 e),
                λ t. (not-true_iff (Valid ds now) v valid).1 (only (λ d. Valid d now → ⊥) _ ds h t),
              );
        offers =
            rw (k, pushes_offer b v)
              (
                λ e. (ds, h, (not-true_iff (offer_id ≡ ds.id ++ offer_id_suffix) b named).0 e),
                λ t.
                    (not-true_iff (offer_id ≡ ds.id ++ offer_id_suffix) b named).1
                      (only (λ d. (offer_id ≡ d.id ++ offer_id_suffix) → ⊥) _ ds h t),
              );
      }

  -- A new request leads to an agreement exactly if it names a configured dataset, asks for that
  -- dataset's own offer, and the dataset is valid; to a termination exactly if the dataset is
  -- configured and no longer valid; to an offer exactly if the dataset is configured and another
  -- offer was asked for.
  pub decide_initial_request-Routed : Routed
  decide_initial_request-Routed = elim (Option-cases (find_configured_dataset cfg id)) [
    | inl h ↦ routed_unknown h
    | inr (ds, h) ↦ routed_known ds h
  ]

-- The constraints that this connector can enforce: none, or one date.
pub data Enforceable : List RawConstraint → Type 0 where
  unconstrained : Enforceable []
  until : (t : ℕ) → Enforceable (constraint "dateTime" "lteq" (rfc3339 t) ∷ [])

abbrev pub AllEnforceable : List Permission → Type 0
AllEnforceable ps = All (λ (p : Permission). Enforceable p.constraints) ps

Enforceable-true :
    (cs : List RawConstraint)
    → Enforceable cs
    → (not (is_empty cs) && not (is_validity_period_constraint cs)) ≡ false
unfolding is_empty is_validity_period_constraint is_validity_period is_timestamp
Enforceable-true cs unconstrained = refl
Enforceable-true cs (until t) = refl

enforce_one :
    (left operator : String) (right : Operand)
    → (left == "dateTime" && operator == "lteq" && is_timestamp right) ≡ true
    → Enforceable (constraint left operator right ∷ [])
unfolding is_timestamp
enforce_one left operator (rfc3339 t) h =
    let (p, q) = three (left == "dateTime") (operator == "lteq") true h in
    rw ((eq_iff left "dateTime").0 p, (eq_iff operator "lteq").0 q) (until t)
enforce_one left operator (other_text s) h = absurd (ground arith)

false-Enforceable :
    (cs : List RawConstraint)
    → (not (is_empty cs) && not (is_validity_period_constraint cs)) ≡ false
    → Enforceable cs
unfolding is_empty is_validity_period_constraint is_validity_period
false-Enforceable [] h = unconstrained
false-Enforceable (constraint left operator right ∷ []) h =
    enforce_one left operator right (ground arith)
false-Enforceable (undecodable ∷ []) h = absurd (ground arith)
false-Enforceable (c ∷ d ∷ cs) h = absurd (ground arith)

-- A policy counts as enforceable exactly if each of its permissions has no constraint, or one: a
-- date up to which it holds, in a form that parses.
pub has_unenforceable_constraint_iff :
    (ps : List Permission) → (has_unenforceable_constraint ps ≡ false) ↔ AllEnforceable ps
unfolding has_unenforceable_constraint
has_unenforceable_constraint_iff [] = (λ h. tt, λ h. refl)
has_unenforceable_constraint_iff (p ∷ ps) =
    let rest = has_unenforceable_constraint_iff ps in
    let b = not (is_empty p.constraints) && not (is_validity_period_constraint p.constraints) in
    (
      λ h.
          let (f, g) = neither b (has_unenforceable_constraint ps) h in
          (false-Enforceable p.constraints f, rest.0 g),
      λ t. rw (Enforceable-true p.constraints t.0) (rest.1 t.1),
    )

-- What this connector puts into its own offers and agreements, with a date or without, it takes for
-- enforceable when it meets it.
pub build_permission-Enforceable :
    (validity : Option ℕ) → has_unenforceable_constraint (build_permission validity) ≡ false
unfolding build_permission
build_permission-Enforceable none = (has_unenforceable_constraint_iff _).1 (unconstrained, tt)
build_permission-Enforceable (some t) = (has_unenforceable_constraint_iff _).1 (until _, tt)
