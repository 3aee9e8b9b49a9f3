-- ===== src/Gate/Counting.antt =====
-- What the loop of `evaluate` in cmd/tckgate/main.go gathers: counts and failures.
use mathlib.Core.Path.{subst}
use dataspace_in_a_box.Base.{
  ℕ, suc, ◌+◌, ◌≡◌, refl, sym, ap, ◌∙◌, inl, inr, Bool, true, false, not, ◌&&◌, none, some, List,
  [], ◌∷◌, ◌++◌, Bool-cases, Option-cases, arith, if◌then◌else◌,
}
use dataspace_in_a_box.Range.{Bytes}
use dataspace_in_a_box.Gate.{
  Expected, Report, seen_of, bump, gated_suite, sort_out, note_result, evaluate_lines, is_empty,
}
use dataspace_in_a_box.Gate.Lines.{TestResult, id_of, same_bytes, match_line, trim_space}
use dataspace_in_a_box.Gate.Suites.{
  Keyed, ColonFree, is_gated, gated_suite_lem, same_bytes-equal, same_bytes_refl,
  match_line-ColonFree,
}

-- The results that the lines report.
unfoldable pub results : List Bytes → List TestResult
results [] = []
results (line ∷ lines) = elim (match_line false line) [
  | none ↦ results lines
  | some t ↦ t ∷ results lines
]

-- How many of them are of a suite.
unfoldable pub count : Bytes → List TestResult → ℕ
count suite [] = 0
count suite (t ∷ ts) = let n = count suite ts in if same_bytes suite t.suite then suc n else n

abbrev one_if : Bool → ℕ
one_if true = 1
one_if false = 0

count-cons :
    (suite : Bytes) (t : TestResult) (ts : List TestResult)
    → count suite (t ∷ ts) ≡ one_if (same_bytes suite t.suite) + count suite ts
unfolding count
count-cons suite t ts = ground arith

seen_of-bump :
    (k j : Bytes) (m : List (Bytes × ℕ))
    → seen_of k (bump j m) ≡ one_if (same_bytes k j) + seen_of k m
unfolding seen_of bump
seen_of-bump k j [] = ground arith
seen_of-bump k j ((key, n) ∷ rest) = elim (Bool-cases (same_bytes j key)) [
  | inl e ↦ rw (e, same_bytes-equal j key e) (ground arith)
  | inr e ↦ elim (Bool-cases (same_bytes k key)) [
    | inr f ↦ rw (e, f) (seen_of-bump k j rest)
    | inl f ↦ elim (Bool-cases (same_bytes k j)) [
      | inr g ↦ rw (e, f, g) (ground arith)
      | inl g ↦
          let equal : j ≡ key = sym (same_bytes-equal k j g) ∙ same_bytes-equal k key f in
          let hit : same_bytes j key ≡ true = ap (same_bytes j) (sym equal) ∙ same_bytes_refl j in
          absurd (ground (arith, hit))
    ]
  ]
]

sort_out-keeps :
    (successful exempted : Bool) (line : Bytes) (r : Report)
    → ((sort_out successful exempted line r).seen ≡ r.seen)
      × ((sort_out successful exempted line r).wanted ≡ r.wanted)
unfolding sort_out
sort_out-keeps false true line r = (refl, refl)
sort_out-keeps false false line r = (refl, refl)
sort_out-keeps true true line r = (refl, refl)
sort_out-keeps true false line r = (refl, refl)

-- Nothing gathered so far fails the gate.
unfoldable pub is_clean : Report → Bool
is_clean r = is_empty r.failed && is_empty r.unexpected_passes

abbrev pub as_claimed : Bool → Bool → Bool
as_claimed successful exempted = if exempted then not successful else successful

is_empty-append : {A : Type 0} (xs : List A) (x : A) → is_empty (xs ++ x ∷ []) ≡ false
unfolding is_empty
is_empty-append [] x = refl
is_empty-append (y ∷ xs) x = refl

sort_out-clean :
    (successful exempted : Bool) (line : Bytes) (r : Report)
    → is_clean (sort_out successful exempted line r)
      ≡ (is_clean r && as_claimed successful exempted)
unfolding sort_out is_clean
sort_out-clean false true line r = ground arith
sort_out-clean false false line r = ground (arith, is_empty-append r.failed (trim_space line))
sort_out-clean true true line r =
    ground (arith, is_empty-append r.unexpected_passes (trim_space line))
sort_out-clean true false line r = ground arith

module _ (exempt : Bytes → Bool) where
  -- A result of a gated suite is a success exactly if it is not exempted.
  unfoldable pub is_claimed : Expected → TestResult → Bool
  is_claimed wanted t =
      if is_gated wanted t.suite then as_claimed t.successful (exempt (id_of t)) else true

  unfoldable pub all_claimed : Expected → List TestResult → Bool
  all_claimed wanted [] = true
  all_claimed wanted (t ∷ ts) = is_claimed wanted t && all_claimed wanted ts

  -- What one result adds.
  record Noted (k : Bytes) (t : TestResult) (r r' : Report) : Type 0 where
    wanted : r'.wanted ≡ r.wanted
    clean : is_clean r' ≡ (is_clean r && is_claimed r.wanted t)
    seen :
        is_gated r.wanted k ≡ true
        → seen_of k r'.seen ≡ one_if (same_bytes k t.suite) + seen_of k r.seen

  note_result-gated :
      (line : Bytes) (t : TestResult) (r : Report) (suite : Bytes)
      → gated_suite r.wanted (id_of t) ≡ some suite
      → note_result exempt line t r
        ≡ sort_out t.successful (exempt (id_of t)) line (record r { seen = bump suite r.seen })
  unfolding note_result
  note_result-gated line t r suite found = rw (note_result, found) refl

  note_result-skipped :
      (line : Bytes) (t : TestResult) (r : Report)
      → gated_suite r.wanted (id_of t) ≡ none
      → note_result exempt line t r ≡ record r { skipped = suc r.skipped }
  unfolding note_result
  note_result-skipped line t r found = rw (note_result, found) refl

  module _ (k line : Bytes) (t : TestResult) (r : Report) where
    gated-Noted :
        is_gated r.wanted t.suite ≡ true
        → Noted k t r (
            sort_out t.successful (exempt (id_of t)) line (record r { seen = bump t.suite r.seen }))
    unfolding is_claimed is_clean
    gated-Noted g =
        let r1 : Report = record r { seen = bump t.suite r.seen } in
        let (seen, wanted) = sort_out-keeps t.successful (exempt (id_of t)) line r1 in
        record {
          wanted = wanted;
          clean = rw g (sort_out-clean t.successful (exempt (id_of t)) line r1);
          seen = λ on. ap (seen_of k) seen ∙ seen_of-bump k t.suite r.seen;
        }

    skipped-Noted :
        is_gated r.wanted t.suite ≡ false → Noted k t r (record r { skipped = suc r.skipped })
    unfolding is_claimed is_clean
    skipped-Noted g = record {
      wanted = refl;
      clean = rw g (ground arith);
      seen = λ on. elim (Bool-cases (same_bytes k t.suite)) [
        | inl e ↦
            let on' : is_gated r.wanted t.suite ≡ true =
              ap (is_gated r.wanted) (sym (same_bytes-equal k t.suite e)) ∙ on in
            absurd (ground (arith, on'))
        | inr e ↦ rw e (ground arith)
      ];
    }

    note_result-Noted :
        Keyed r.wanted → ColonFree t.suite → Noted k t r (note_result exempt line t r)
    note_result-Noted keyed free =
        let found = gated_suite_lem r.wanted t keyed free in
        elim (Bool-cases (is_gated r.wanted t.suite)) [
          | inl g ↦
              let eq = note_result-gated line t r t.suite (found ∙ rw g refl) in
              subst (Noted k t r) (sym eq) (gated-Noted g)
          | inr g ↦
              let eq = note_result-skipped line t r (found ∙ rw g refl) in
              subst (Noted k t r) (sym eq) (skipped-Noted g)
        ]

  unread_line :
      (line : Bytes) (lines : List Bytes) (r : Report)
      → match_line false line ≡ none
      → (evaluate_lines exempt (line ∷ lines) r ≡ evaluate_lines exempt lines r)
        × (results (line ∷ lines) ≡ results lines)
  unfolding evaluate_lines results
  unread_line line lines r m = (rw (evaluate_lines, m) refl, rw (results, m) refl)

  read_line :
      (line : Bytes) (lines : List Bytes) (r : Report) (t : TestResult)
      → match_line false line ≡ some t
      → (evaluate_lines exempt (line ∷ lines) r
          ≡ evaluate_lines exempt lines (note_result exempt line t r))
        × (results (line ∷ lines) ≡ t ∷ results lines)
  unfolding evaluate_lines results
  read_line line lines r t m = (rw (evaluate_lines, m) refl, rw (results, m) refl)

  -- What the loop adds to a report.
  pub record Gathered (k : Bytes) (lines : List Bytes) (r r' : Report) : Type 0 where
    pub wanted : r'.wanted ≡ r.wanted
    pub clean : is_clean r' ≡ (is_clean r && all_claimed r.wanted (results lines))
    pub seen :
        is_gated r.wanted k ≡ true → seen_of k r'.seen ≡ count k (results lines) + seen_of k r.seen

  no_lines : (k : Bytes) (r : Report) → Gathered k [] r (evaluate_lines exempt [] r)
  unfolding evaluate_lines results all_claimed count
  no_lines k r = record { wanted = refl; clean = ground arith; seen = λ on. ground arith }

  clean_before :
      (t : TestResult) (lines : List Bytes) (r r1 : Report)
      → r1.wanted ≡ r.wanted
      → is_clean r1 ≡ (is_clean r && is_claimed r.wanted t)
      → (r2 : Report) → is_clean r2 ≡ (is_clean r1 && all_claimed r1.wanted (results lines))
      → is_clean r2
        ≡ (is_clean r && (is_claimed r.wanted t && all_claimed r.wanted (results lines)))
  unfolding all_claimed
  clean_before t lines r r1 w c r2 d =
      let a : all_claimed r1.wanted (results lines) ≡ all_claimed r.wanted (results lines) =
        ap (λ w. all_claimed w (results lines)) w in
      ground (arith, a)

  pub evaluate_lines-Gathered :
      (k : Bytes) (lines : List Bytes) (r : Report)
      → Keyed r.wanted
      → Gathered k lines r (evaluate_lines exempt lines r)
  unfolding all_claimed
  evaluate_lines-Gathered k [] r keyed = no_lines k r
  evaluate_lines-Gathered k (line ∷ lines) r keyed = elim (Option-cases (match_line false line)) [
    | inl m ↦
        let rest = evaluate_lines-Gathered k lines r keyed in
        let (run, read) = unread_line line lines r m in
        record {
          wanted = rw run rest.wanted;
          clean = rw (run, read) rest.clean;
          seen = λ on. rw (run, read) (rest.seen on);
        }
    | inr (t, m) ↦
        let one = note_result-Noted k line t r keyed (match_line-ColonFree false line t m) in
        let r1 = note_result exempt line t r in
        let keyed1 : Keyed r1.wanted = subst Keyed (sym one.wanted) keyed in
        let rest = evaluate_lines-Gathered k lines r1 keyed1 in
        let (run, read) = read_line line lines r t m in
        record {
          wanted = rw run (rest.wanted ∙ one.wanted);
          clean =
              rw (run, read)
                (clean_before t lines r r1 one.wanted one.clean (evaluate_lines exempt lines r1)
                  rest.clean);
          seen = λ on.
              let on1 : is_gated r1.wanted k ≡ true = ap (λ w. is_gated w k) one.wanted ∙ on in
              rw (run, read, count-cons k t (results lines))
                (ground (arith, one.seen on, rest.seen on1));
        }
  ]
