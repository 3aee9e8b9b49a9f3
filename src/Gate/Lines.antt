-- ===== src/Gate/Lines.antt =====
-- The lines of a run of the compliance kit: the two regular expressions and hasCompletionMarker of
-- cmd/tckgate/main.go. The classes of the regular expressions are those of ASCII.
use dataspace_in_a_box.Base.{
  ℕ, ◌+◌, Bool, true, false, ◌&&◌, ◌||◌, Option, none, some, List, [], ◌∷◌, ◌++◌, leb,
  if◌then◌else◌,
}
use dataspace_in_a_box.Range.{Bytes, same, codes, is_digit, cut_prefix, split_first}
use dataspace_in_a_box.Auth.Middleware.{is_space}

-- What a line reports: the identifier is the suite, a colon and the number.
pub record TestResult : Type 0 where
  pub successful : Bool
  pub suite : Bytes
  pub number : Bytes

unfoldable pub id_of : TestResult → Bytes
id_of t = t.suite ++ b':' ∷ t.number

unfoldable pub same_bytes : Bytes → Bytes → Bool
same_bytes [] [] = true
same_bytes [] (b ∷ t) = false
same_bytes (a ∷ s) [] = false
same_bytes (a ∷ s) (b ∷ t) = same a b && same_bytes s t

-- [A-Z_], [\d-], \w and \s.
unfoldable pub in_suite : ℕ → Bool
in_suite c = (leb b'A' c && leb c b'Z') || same c b'_'

unfoldable pub in_number : ℕ → Bool
in_number c = is_digit c || same c b'-'

unfoldable pub in_word : ℕ → Bool
in_word c = in_suite c || (is_digit c || (leb b'a' c && leb c b'z'))

unfoldable pub in_gap : ℕ → Bool
in_gap c = same c 9 || (same c 10 || (same c 12 || (same c 13 || same c 32)))

-- The longest beginning of characters that pass, and the rest.
unfoldable pub span : (ℕ → Bool) → Bytes → Bytes × Bytes
span f [] = ([], [])
span f (c ∷ s) = let (l, r) = span f s in if f c then (c ∷ l, r) else ([], c ∷ s)

unfoldable pub result_with : Bool → Bytes → Bytes → Option TestResult
result_with successful [] number = none
result_with successful (c ∷ suite) [] = none
result_with successful (c ∷ suite) (d ∷ number) =
    some (record { successful = successful; suite = c ∷ suite; number = d ∷ number })

-- ([A-Z_]+:[\d-]+)
unfoldable pub match_id : Bool → Bytes → Option TestResult
match_id successful s =
    let (suite, rest) = span in_suite s in
    elim (cut_prefix (codes ":") rest) [
      | none ↦ none
      | some t ↦ result_with successful suite (span in_number t).0
    ]

-- :\s*([A-Z_]+:[\d-]+)
unfoldable pub match_rest : Bool → Bytes → Option TestResult
match_rest successful s = elim (cut_prefix (codes ":") s) [
  | none ↦ none
  | some t ↦ match_id successful (span in_gap t).1
]

-- The expression from a word boundary on.
unfoldable pub match_here : Bytes → Option TestResult
match_here s = elim (cut_prefix (codes "SUCCESSFUL") s) [
  | some t ↦ match_rest true t
  | none ↦ elim (cut_prefix (codes "FAILED") s) [ none ↦ none | some t ↦ match_rest false t ]
]

-- The leftmost match; the test tells whether the character before is one of a word.
unfoldable pub match_line : Bool → Bytes → Option TestResult
match_line after_word [] = none
match_line after_word (c ∷ s) =
    let later = match_line (in_word c) s in
    if after_word then later else elim (match_here (c ∷ s)) [ none ↦ later | some t ↦ some t ]

-- ^\[[^\]]*\]\s*
unfoldable pub strip_timestamp : Bytes → Bytes
strip_timestamp [] = []
strip_timestamp (c ∷ s) =
    if same c b'['
    then elim (split_first b']' s) [ none ↦ c ∷ s | some (l, r) ↦ (span in_gap r).1 ]
    else c ∷ s

unfoldable pub trim_end : Bytes → Bytes
trim_end [] = []
trim_end (c ∷ s) = elim (trim_end s) [
  | [] ↦ if is_space c then [] else c ∷ []
  | d ∷ t ↦ c ∷ (d ∷ t)
]

-- `strings.TrimSpace`
unfoldable pub trim_space : Bytes → Bytes
trim_space s = trim_end (span is_space s).1

-- `strings.ToLower`, as far as the marker tells: only A to Z have a lower case among its letters.
unfoldable pub to_lower : Bytes → Bytes
to_lower [] = []
to_lower (c ∷ s) = (if leb b'A' c && leb c b'Z' then c + 32 else c) ∷ to_lower s

abbrev pub completion_marker : Bytes
completion_marker = codes "test run complete"

unfoldable pub is_marker : Bytes → Bool
is_marker line = same_bytes (to_lower (trim_space (strip_timestamp line))) completion_marker

unfoldable pub has_completion_marker : List Bytes → Bool
has_completion_marker [] = false
has_completion_marker (line ∷ lines) = is_marker line || has_completion_marker lines
