-- ===== src/Gate/Verdict.antt =====
-- When a run passes the gate of cmd/tckgate/main.go.
use dataspace_in_a_box.Base.{
  ℕ, ◌≡◌, ◌≢◌, ◌↔◌, refl, sym, ap, ◌∙◌, inl, inr, Bool, true, false, not, ◌&&◌, some, List, [], ◌∷◌,
  All, Bool-cases, arith,
}
use dataspace_in_a_box.Range.{Bytes, same}
use dataspace_in_a_box.Gate.{
  Expected, Report, seen_of, shortfalls, is_empty, is_ok, empty_report, evaluate_lines, evaluate,
}
use dataspace_in_a_box.Gate.Lines.{TestResult, id_of, has_completion_marker}
use dataspace_in_a_box.Gate.Suites.{Keyed, is_gated, same_bytes_refl}
use dataspace_in_a_box.Gate.Counting.{
  results, count, is_clean, is_claimed, all_claimed, Gathered, evaluate_lines-Gathered,
}

-- A result of a gated suite that the gate admits.
abbrev pub Claimed : Expected → (Bytes → Bool) → TestResult → Type 0
Claimed wanted exempt t = is_gated wanted t.suite ≡ true → t.successful ≡ not (exempt (id_of t))

-- A complete run in which each gated suite has the results that it must have.
pub record Compliant (output : List Bytes) (wanted : Expected) (exempt : Bytes → Bool)
    : Type 0 where
  pub complete : has_completion_marker output ≡ true
  pub gating : wanted ≢ []
  pub counted : All (λ (e : Bytes × ℕ). count e.0 (results output) ≡ e.1) wanted
  pub claimed : All (Claimed wanted exempt) (results output)

-- Each suite has as many results as it must have.
abbrev Counted : (Bytes → ℕ) → Expected → Type 0
Counted n = All (λ (e : Bytes × ℕ). n e.0 ≡ e.1)

shortfalls-Counted_iff :
    (wanted : Expected) (seen : List (Bytes × ℕ))
    → (is_empty (shortfalls wanted seen) ≡ true) ↔ Counted (λ k. seen_of k seen) wanted
unfolding shortfalls is_empty
shortfalls-Counted_iff [] seen = (λ h. tt, λ h. refl)
shortfalls-Counted_iff ((suite, want) ∷ rest) seen =
    let (there, back) = shortfalls-Counted_iff rest seen in
    elim (Bool-cases (same (seen_of suite seen) want)) [
      | inl e ↦ rw e (λ h. (ground arith, there h), λ h. back h.1)
      | inr e ↦ rw e (λ h. absurd (ground arith), λ h. absurd (ground (arith, h.0)))
    ]

-- A listed suite is gated.
abbrev Listed : Expected → Expected → Type 0
Listed all = All (λ (e : Bytes × ℕ). is_gated all e.0 ≡ true)

still-Listed : (x : Bytes × ℕ) (all es : Expected) → Listed all es → Listed (x ∷ all) es
unfolding is_gated
still-Listed x all [] h = tt
still-Listed x all (e ∷ es) h = (ground (arith, h.0), still-Listed x all es h.1)

all-Listed : (es : Expected) → Listed es es
unfolding is_gated
all-Listed [] = tt
all-Listed (e ∷ es) = (rw (same_bytes_refl e.0) refl, still-Listed e es es (all-Listed es))

module _ (n m : Bytes → ℕ) (all : Expected) where
  Counted-agree :
      ((k : Bytes) → is_gated all k ≡ true → n k ≡ m k)
      → (es : Expected) → Listed all es
      → Counted n es
      → Counted m es
  Counted-agree agree [] l h = tt
  Counted-agree agree (e ∷ es) l h = (sym (agree e.0 l.0) ∙ h.0, Counted-agree agree es l.1 h.1)

module _ (wanted : Expected) (exempt : Bytes → Bool) where
  is_claimed-Claimed :
      (t : TestResult) → (is_claimed exempt wanted t ≡ true) ↔ Claimed wanted exempt t
  unfolding is_claimed
  is_claimed-Claimed t = elim (Bool-cases (is_gated wanted t.suite)) [
    | inl g ↦ rw g (λ h on. ground arith, λ h. ground (arith, h refl))
    | inr g ↦ rw g (λ h on. absurd (ground arith), λ h. refl)
  ]

  all_claimed-Claimed :
      (ts : List TestResult)
      → (all_claimed exempt wanted ts ≡ true) ↔ All (Claimed wanted exempt) ts
  unfolding all_claimed
  all_claimed-Claimed [] = (λ h. tt, λ h. refl)
  all_claimed-Claimed (t ∷ ts) =
      let (there, back) = is_claimed-Claimed t in
      let (theres, backs) = all_claimed-Claimed ts in
      (λ h. (there (ground arith), theres (ground arith)), λ h. ground (arith, back h.0, backs h.1))

gating_iff : (wanted : Expected) → (is_empty wanted ≡ false) ↔ (wanted ≢ [])
unfolding is_empty
gating_iff [] = (λ h. absurd (ground arith), λ h. absurd (h refl))
gating_iff (e ∷ es) = (λ h n. absurd (ground (arith, ap is_empty n)), λ h. refl)

is_ok_lem :
    (r : Report) (wanted : Expected)
    → r.wanted ≡ wanted
    → is_ok r ≡ (not (is_empty wanted) && (is_empty (shortfalls wanted r.seen) && is_clean r))
unfolding is_ok is_clean
is_ok_lem r wanted e =
    ap (λ w. not (is_empty w) && (is_empty (shortfalls w r.seen) && is_clean r)) e

module _ (output : List Bytes) (wanted : Expected) (exempt : Bytes → Bool) where
  abbrev last : Report
  last = evaluate_lines exempt output (empty_report wanted)

  -- The verdict of a run.
  abbrev pub Passes : Type 0
  Passes = (r : Report) × (evaluate output wanted exempt ≡ some r) × (is_ok r ≡ true)

  last-Gathered :
      Keyed wanted
      → (last.wanted ≡ wanted)
        × (is_clean last ≡ all_claimed exempt wanted (results output))
        × ((k : Bytes) → is_gated wanted k ≡ true → seen_of k last.seen ≡ count k (results output))
  unfolding is_clean is_empty seen_of
  last-Gathered keyed =
      let gathered : (k : Bytes) → Gathered exempt k output (empty_report wanted) last =
        λ k. evaluate_lines-Gathered exempt k output (empty_report wanted) keyed in
      (
        (gathered []).wanted,
        ground (arith, (gathered []).clean),
        λ k on. ground (arith, (gathered k).seen on),
      )

  last-Compliant :
      Keyed wanted
      → has_completion_marker output ≡ true
      → (is_ok last ≡ true) ↔ Compliant output wanted exempt
  last-Compliant keyed complete =
      let (same_wanted, clean, seen) = last-Gathered keyed in
      let (short, short') = shortfalls-Counted_iff wanted last.seen in
      let (claimed, claimed') = all_claimed-Claimed wanted exempt (results output) in
      let (gating, gating') = gating_iff wanted in
      let ok = is_ok_lem last wanted same_wanted in
      (
        λ h. record {
          complete = complete;
          gating = gating (ground (arith, ok));
          counted =
              Counted-agree (λ k. seen_of k last.seen) (λ k. count k (results output)) wanted seen
                wanted (all-Listed wanted) (short (ground (arith, ok)));
          claimed = claimed (ground (arith, ok, clean));
        },
        λ c.
            let counted = short' (
              Counted-agree (λ k. count k (results output)) (λ k. seen_of k last.seen) wanted
                (λ k on. sym (seen k on)) wanted (all-Listed wanted) c.counted) in
            ground (arith, ok, clean, counted, claimed' c.claimed, gating' c.gating),
      )

  -- Where no suite has a colon in its name, a run passes the gate exactly if it prints the marker of
  -- its end, at least one suite is gated, each gated suite has exactly the number of results that it
  -- must have, and each result of a gated suite is a success unless its test is exempted and a
  -- failure if it is. The results are those of the lines, and the order of the suites is free.
  pub evaluate-Compliant : Keyed wanted → Passes ↔ Compliant output wanted exempt
  unfolding evaluate
  evaluate-Compliant keyed = elim (Bool-cases (has_completion_marker output)) [
    | inr f ↦ (λ (r, e, ok). absurd (ground arith), λ c. absurd (ground (arith, c.complete)))
    | inl complete ↦
        let (there, back) = last-Compliant keyed complete in
        (
          λ (r, e, ok). let final : last ≡ r = ground arith in there (ap is_ok final ∙ ok),
          λ c. (last, rw complete refl, back c),
        )
  ]
