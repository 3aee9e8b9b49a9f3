-- ===== src/Gate/Suites.antt =====
-- To which suite a result of cmd/tckgate/main.go belongs: the colon behind a suite's name tells CN
-- and CN_C apart.
use mathlib.Core.Path.{subst}
use dataspace_in_a_box.Base.{
  ℕ, ◌≡◌, refl, ap, ◌∙◌, inl, inr, Bool, true, false, ◌||◌, none, some, [], ◌∷◌, ◌++◌, All,
  Bool-cases, Option-cases, arith, if◌then◌else◌,
}
use dataspace_in_a_box.Range.{Bytes, same, codes, cut_prefix}
use dataspace_in_a_box.Gate.{Expected, begins_with, gated_suite}
use dataspace_in_a_box.Gate.Lines.{
  TestResult, id_of, same_bytes, in_suite, in_number, in_gap, in_word, span, result_with, match_id,
  match_rest, match_here, match_line,
}

same-equal : (a b : ℕ) → same a b ≡ true → a ≡ b
same-equal a b h = ground arith

same_refl : (a : ℕ) → same a a ≡ true
same_refl a = ground arith

pub same_bytes-equal : (s t : Bytes) → same_bytes s t ≡ true → s ≡ t
unfolding same_bytes
same_bytes-equal [] [] h = refl
same_bytes-equal [] (b ∷ t) h = absurd (ground arith)
same_bytes-equal (a ∷ s) [] h = absurd (ground arith)
same_bytes-equal (a ∷ s) (b ∷ t) h = elim (Bool-cases (same a b)) [
  | inl e ↦
      let rest : same_bytes s t ≡ true = ground arith in
      rw (same-equal a b e, same_bytes-equal s t rest) refl
  | inr e ↦ absurd (ground arith)
]

pub same_bytes_refl : (s : Bytes) → same_bytes s s ≡ true
unfolding same_bytes
same_bytes_refl [] = refl
same_bytes_refl (a ∷ s) = rw (same_refl a) (same_bytes_refl s)

-- No character of it is a colon.
abbrev pub ColonFree : Bytes → Type 0
ColonFree = All (λ c. same b':' c ≡ false)

flip : (a b : ℕ) → same a b ≡ same b a
flip a b = ground arith

pub begins_with-colon :
    (key suite number : Bytes)
    → ColonFree key
    → ColonFree suite
    → begins_with (key ++ b':' ∷ []) (suite ++ b':' ∷ number) ≡ same_bytes key suite
unfolding begins_with cut_prefix same_bytes
begins_with-colon [] [] number k s = refl
begins_with-colon [] (c ∷ suite) number k s = rw (begins_with, cut_prefix, s.0, same_bytes) refl
begins_with-colon (a ∷ key) [] number k s =
    rw (begins_with, cut_prefix, flip a b':' ∙ k.0, same_bytes) refl
begins_with-colon (a ∷ key) (c ∷ suite) number k s = elim (Bool-cases (same a c)) [
  | inl e ↦ rw (begins_with, cut_prefix, e) (begins_with-colon key suite number k.1 s.1)
  | inr e ↦ rw (begins_with, cut_prefix, e) refl
]

-- The keys of a list of expected counts.
abbrev pub Keyed : Expected → Type 0
Keyed = All (λ (e : Bytes × ℕ). ColonFree e.0)

unfoldable pub is_gated : Expected → Bytes → Bool
is_gated [] suite = false
is_gated ((key, n) ∷ rest) suite = same_bytes key suite || is_gated rest suite

pub gated_suite_lem :
    (wanted : Expected) (t : TestResult)
    → Keyed wanted
    → ColonFree t.suite
    → gated_suite wanted (id_of t) ≡ (if is_gated wanted t.suite then some t.suite else none)
unfolding gated_suite is_gated id_of
gated_suite_lem [] t k s = refl
gated_suite_lem ((key, n) ∷ rest) t k s = elim (Bool-cases (same_bytes key t.suite)) [
  | inl e ↦
      rw (begins_with-colon key t.suite t.number k.0 s, e)
        (ap some (same_bytes-equal key t.suite e))
  | inr e ↦ rw (begins_with-colon key t.suite t.number k.0 s, e) (gated_suite_lem rest t k.1 s)
]

in_suite-colon : (c : ℕ) → in_suite c ≡ true → same b':' c ≡ false
unfolding in_suite
in_suite-colon c h = ground arith

span-ColonFree : (s : Bytes) → ColonFree (span in_suite s).0
unfolding span
span-ColonFree [] = tt
span-ColonFree (c ∷ s) = elim (Bool-cases (in_suite c)) [
  | inl e ↦ rw e (in_suite-colon c e, span-ColonFree s)
  | inr e ↦ rw e tt
]

result_with-ColonFree :
    (b : Bool) (suite number : Bytes) (t : TestResult)
    → result_with b suite number ≡ some t
    → ColonFree suite
    → ColonFree t.suite
unfolding result_with
result_with-ColonFree b [] number t h free = absurd (ground arith)
result_with-ColonFree b (c ∷ suite) [] t h free = absurd (ground arith)
result_with-ColonFree b (c ∷ suite) (d ∷ number) t h free =
    let same_suite : (c ∷ suite) ≡ t.suite = ground arith in subst ColonFree same_suite free

match_id-ColonFree :
    (b : Bool) (s : Bytes) (t : TestResult) → match_id b s ≡ some t → ColonFree t.suite
unfolding match_id
match_id-ColonFree b s t h = elim (Option-cases (cut_prefix (codes ":") (span in_suite s).1)) [
  | inl n ↦ absurd (ground arith)
  | inr (u, e) ↦
      let r : result_with b (span in_suite s).0 (span in_number u).0 ≡ some t = ground arith in
      result_with-ColonFree b (span in_suite s).0 (span in_number u).0 t r (span-ColonFree s)
]

match_rest-ColonFree :
    (b : Bool) (s : Bytes) (t : TestResult) → match_rest b s ≡ some t → ColonFree t.suite
unfolding match_rest
match_rest-ColonFree b s t h = elim (Option-cases (cut_prefix (codes ":") s)) [
  | inl n ↦ absurd (ground arith)
  | inr (u, e) ↦
      let r : match_id b (span in_gap u).1 ≡ some t = ground arith in
      match_id-ColonFree b (span in_gap u).1 t r
]

match_here-ColonFree : (s : Bytes) (t : TestResult) → match_here s ≡ some t → ColonFree t.suite
unfolding match_here
match_here-ColonFree s t h = elim (Option-cases (cut_prefix (codes "SUCCESSFUL") s)) [
  | inr (u, e) ↦
      let r : match_rest true u ≡ some t = ground arith in match_rest-ColonFree true u t r
  | inl n ↦ elim (Option-cases (cut_prefix (codes "FAILED") s)) [
    | inl m ↦ absurd (ground arith)
    | inr (u, e) ↦
        let r : match_rest false u ≡ some t = ground arith in match_rest-ColonFree false u t r
  ]
]

pub match_line-ColonFree :
    (after_word : Bool) (s : Bytes) (t : TestResult)
    → match_line after_word s ≡ some t
    → ColonFree t.suite
unfolding match_line
match_line-ColonFree after_word [] t h = absurd (ground arith)
match_line-ColonFree true (c ∷ s) t h = match_line-ColonFree (in_word c) s t h
match_line-ColonFree false (c ∷ s) t h = elim (Option-cases (match_here (c ∷ s))) [
  | inl n ↦
      let r : match_line (in_word c) s ≡ some t = ground arith in
      match_line-ColonFree (in_word c) s t r
  | inr (u, e) ↦
      let r : match_here (c ∷ s) ≡ some t = ground arith in match_here-ColonFree (c ∷ s) t r
]
