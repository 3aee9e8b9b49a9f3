-- ===== src/Tests/Gates.antt =====
-- A run of the compliance kit.
use dataspace_in_a_box.Base.{Bool, List, [], ◌∷◌, ◌↔◌, refl}
use dataspace_in_a_box.Range.{Bytes, codes, cut_prefix, split_first}
use dataspace_in_a_box.Auth.Middleware.{is_space}
use dataspace_in_a_box.Gate.{
  Expected, evaluate, evaluate_lines, note_result, sort_out, bump, seen_of, gated_suite,
  begins_with, is_empty, shortfalls, is_ok, empty_report,
}
use dataspace_in_a_box.Gate.Lines.{
  id_of, same_bytes, in_suite, in_number, in_word, in_gap, span, result_with, match_id, match_rest,
  match_here, match_line, strip_timestamp, trim_end, trim_space, to_lower, is_marker,
  has_completion_marker,
}
use dataspace_in_a_box.Gate.Verdict.{Passes, Compliant, evaluate-Compliant}

abbrev wanted : Expected
wanted = (codes "CN", 1) ∷ (codes "CN_C", 1) ∷ []

abbrev output : List Bytes
output =
    codes "[2026-07-28T17:33:51] SUCCESSFUL: CN:01-01"
    ∷ codes "[2026-07-28T17:33:52] FAILED: CN_C:01-02"
    ∷ codes "[2026-07-28T17:33:53] FAILED: TP:01-02"
    ∷ codes "[2026-07-28T17:33:54] Test run complete"
    ∷ []

-- One test is exempted.
abbrev exempt : Bytes → Bool
exempt id = same_bytes id (codes "CN_C:01-02")

run_passes : Passes output wanted exempt
unfolding evaluate evaluate_lines note_result sort_out bump seen_of gated_suite begins_with is_empty
    shortfalls is_ok id_of same_bytes in_suite in_number in_word in_gap span result_with match_id
    match_rest match_here match_line strip_timestamp trim_end trim_space to_lower is_marker
    has_completion_marker cut_prefix split_first is_space
run_passes = (evaluate_lines exempt output (empty_report wanted), refl, refl)

evaluate-Compliant_example : Passes output wanted exempt ↔ Compliant output wanted exempt
evaluate-Compliant_example =
    evaluate-Compliant output wanted exempt
      ((refl, (refl, tt)), ((refl, (refl, (refl, (refl, tt)))), tt))
