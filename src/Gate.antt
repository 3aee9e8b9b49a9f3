-- ===== src/Gate.antt =====
-- The gate over a run of the compliance kit: cmd/tckgate/main.go. A text is the list of its code
-- points. The map of expected counts is a list of its entries, in any order.
pub mod Lines
pub mod Suites
pub mod Counting
pub mod Verdict
use dataspace_in_a_box.Base.{
  ℕ, suc, ◌+◌, Bool, true, false, not, ◌&&◌, Option, none, some, List, [], ◌∷◌, ◌++◌, if◌then◌else◌,
}
use dataspace_in_a_box.Range.{Bytes, same, codes, is_digit, cut_prefix}
use dataspace_in_a_box.Gate.Lines.{
  TestResult, id_of, same_bytes, match_line, has_completion_marker, trim_space,
}

-- The suites with the number of results that each must produce.
abbrev pub Expected : Type 0
Expected = List (Bytes × ℕ)

abbrev pub expected : Expected
expected =
    (codes "MET", 1)
    ∷ (codes "CAT", 3)
    ∷ (codes "CN", 15)
    ∷ (codes "CN_C", 16)
    ∷ (codes "TP", 15)
    ∷ (codes "TP_C", 15)
    ∷ []

pub record Report : Type 0 where
  pub wanted : Expected
  pub seen : List (Bytes × ℕ)
  pub failed : List Bytes
  pub exempted : List Bytes
  pub unexpected_passes : List Bytes
  pub skipped : ℕ

-- A map's value, zero where the key is missing, and its increment.
unfoldable pub seen_of : Bytes → List (Bytes × ℕ) → ℕ
seen_of suite [] = 0
seen_of suite ((key, n) ∷ rest) = if same_bytes suite key then n else seen_of suite rest

unfoldable pub bump : Bytes → List (Bytes × ℕ) → List (Bytes × ℕ)
bump suite [] = (suite, 1) ∷ []
bump suite ((key, n) ∷ rest) =
    let others = bump suite rest in
    if same_bytes suite key then (key, suc n) ∷ rest else (key, n) ∷ others

unfoldable pub begins_with : Bytes → Bytes → Bool
begins_with prefix s = elim (cut_prefix prefix s) [ none ↦ false | some rest ↦ true ]

unfoldable pub gated_suite : Expected → Bytes → Option Bytes
gated_suite [] id = none
gated_suite ((suite, n) ∷ rest) id =
    let later = gated_suite rest id in
    if begins_with (suite ++ b':' ∷ []) id then some suite else later

-- `sort.Strings` and the wording of a message play no part in the verdict.
unfoldable pub shortfalls : Expected → List (Bytes × ℕ) → List Bytes
shortfalls [] seen = []
shortfalls ((suite, want) ∷ rest) seen =
    let others = shortfalls rest seen in
    if same (seen_of suite seen) want then others else suite ∷ others

unfoldable pub total : List (Bytes × ℕ) → ℕ
total [] = 0
total ((suite, n) ∷ rest) = n + total rest

module _ {ℓ} {A : Type ℓ} where
  unfoldable pub is_empty : List A → Bool
  is_empty [] = true
  is_empty (x ∷ xs) = false

unfoldable pub is_ok : Report → Bool
is_ok r =
    not (is_empty r.wanted)
    && (is_empty (shortfalls r.wanted r.seen)
        && (is_empty r.failed && is_empty r.unexpected_passes))

-- The `switch` on outcome and exemption, of a gated result on a line.
unfoldable pub sort_out : Bool → Bool → Bytes → Report → Report
sort_out false true line r = record r { exempted = r.exempted ++ trim_space line ∷ [] }
sort_out false false line r = record r { failed = r.failed ++ trim_space line ∷ [] }
sort_out true true line r = record r {
  unexpected_passes = r.unexpected_passes ++ trim_space line ∷ [];
}
sort_out true false line r = r

unfoldable pub note_result : (Bytes → Bool) → Bytes → TestResult → Report → Report
note_result exempt line t r = elim (gated_suite r.wanted (id_of t)) [
  | none ↦ record r { skipped = suc r.skipped }
  | some suite ↦
      sort_out t.successful (exempt (id_of t)) line (record r { seen = bump suite r.seen })
]

unfoldable pub evaluate_lines : (Bytes → Bool) → List Bytes → Report → Report
evaluate_lines exempt [] r = r
evaluate_lines exempt (line ∷ lines) r = elim (match_line false line) [
  | none ↦ evaluate_lines exempt lines r
  | some t ↦ evaluate_lines exempt lines (note_result exempt line t r)
]

abbrev pub empty_report : Expected → Report
empty_report wanted = record {
  wanted = wanted;
  seen = [];
  failed = [];
  exempted = [];
  unexpected_passes = [];
  skipped = 0;
}

-- The output is given by its lines; `none` is the error that the run did not complete.
unfoldable pub evaluate : List Bytes → Expected → (Bytes → Bool) → Option Report
evaluate output wanted exempt =
    if has_completion_marker output
    then some (evaluate_lines exempt output (empty_report wanted))
    else none
