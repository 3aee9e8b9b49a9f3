-- ===== src/Range/Laws.antt =====
-- Each range header is read back as it was written.
use Prim.Native.Nat.{◌-◌, ◌/◌, ◌%◌, ◌^◌}
use mathlib.Core.List.{cons-ne-nil}
use dataspace_in_a_box.Base.{
  ℕ, zero, suc, ◌+◌, ◌<◌, ◌≡◌, ◌≢◌, refl, ◌∙◌, inl, inr, true, false, none, some, [], ◌∷◌, ◌++◌,
  ltb, All, Bool-cases, arith,
}
use dataspace_in_a_box.Range.{
  Bytes, is_digit, same, read_digits, parse_int64, cut_prefix, cut_last, split_first, split_last,
  parse_range_start, first_of, parse_content_range, digits, decimal, range_header, content_range,
}

abbrev IsDigit : ℕ → Type 0
IsDigit c = is_digit c ≡ true

last_digit :
    (n : ℕ) (out : Bytes)
    → n < 2 ^ 63
    → read_digits (n / 10) ((b'0' + n % 10) ∷ out) ≡ read_digits n out
unfolding read_digits
last_digit n out h = ground arith

zero_tenth : (n : ℕ) → ltb n 10 ≡ true → 0 ≡ n / 10
zero_tenth n h = ground arith

read_digits-digits :
    (fuel n : ℕ) (out : Bytes)
    → n < fuel
    → n < 2 ^ 63
    → read_digits 0 (digits fuel n out) ≡ read_digits n out
unfolding digits
read_digits-digits zero n out h k = elim h [ ]
read_digits-digits (suc fuel) n out h k = elim (Bool-cases (ltb n 10)) [
  | inl small ↦ rw small (rw (zero_tenth n small) (last_digit n out k))
  | inr large ↦
      rw large
        (read_digits-digits fuel (n / 10) _ (ground arith) (omega arith) ∙ last_digit n out k)
]

digits-All : (fuel n : ℕ) (out : Bytes) → All IsDigit out → All IsDigit (digits fuel n out)
unfolding digits
digits-All zero n out h = h
digits-All (suc fuel) n out h = elim (Bool-cases (ltb n 10)) [
  | inl small ↦ rw small (ground arith, h)
  | inr large ↦ rw large (digits-All fuel (n / 10) _ (ground arith, h))
]

digits_written : (fuel n : ℕ) (out : Bytes) → out ≢ [] → digits fuel n out ≢ []
unfolding digits
digits_written zero n out h = h
digits_written (suc fuel) n out h = elim (Bool-cases (ltb n 10)) [
  | inl small ↦ rw small (cons-ne-nil _ _)
  | inr large ↦ rw large (digits_written fuel (n / 10) _ (cons-ne-nil _ _))
]

parse-digits : (s : Bytes) → All IsDigit s → s ≢ [] → parse_int64 s ≡ read_digits 0 s
unfolding parse_int64
parse-digits [] h k = absurd (k refl)
parse-digits (c ∷ s) h k = ground arith

decimal-ne-nil : (n : ℕ) → decimal n ≢ []
unfolding decimal digits
decimal-ne-nil n = elim (Bool-cases (ltb n 10)) [
  | inl small ↦ rw small (cons-ne-nil _ _)
  | inr large ↦ rw large (digits_written n (n / 10) _ (cons-ne-nil _ _))
]

decimal-All : (n : ℕ) → All IsDigit (decimal n)
unfolding decimal
decimal-All n = digits-All (suc n) n [] tt

parse-decimal : (n : ℕ) → n < 2 ^ 63 → parse_int64 (decimal n) ≡ some n
unfolding decimal read_digits
parse-decimal n h =
    parse-digits (decimal n) (decimal-All n) (decimal-ne-nil n)
    ∙ read_digits-digits (suc n) n [] (omega arith) h

cut_last-append : (c : ℕ) (s : Bytes) → cut_last c (s ++ c ∷ []) ≡ some s
unfolding cut_last
cut_last-append c [] = ground arith
cut_last-append c (b ∷ []) = ground arith
cut_last-append c (b ∷ a ∷ s) = rw (cut_last-append c (a ∷ s)) refl

split_first-append :
    (c : ℕ) (l r : Bytes) → All (λ b. same b c ≡ false) l → split_first c (l ++ c ∷ r) ≡ some (l, r)
unfolding split_first
split_first-append c [] r h = ground arith
split_first-append c (b ∷ l) r h = rw (h.0, split_first-append c l r h.1) refl

split_last-none : (c : ℕ) (s : Bytes) → All (λ b. same b c ≡ false) s → split_last c s ≡ none
unfolding split_last
split_last-none c [] h = refl
split_last-none c (b ∷ s) h = rw (split_last-none c s h.1) (rw h.0 refl)

split_last-append :
    (c : ℕ) (l r : Bytes) → All (λ b. same b c ≡ false) r → split_last c (l ++ c ∷ r) ≡ some (l, r)
unfolding split_last
split_last-append c [] r h = rw (split_last-none c r h) (ground arith)
split_last-append c (b ∷ l) r h = rw (split_last-append c l r h) refl

All-other : (c : ℕ) (s : Bytes) → is_digit c ≡ false → All IsDigit s → All (λ b. same b c ≡ false) s
All-other c [] h k = tt
All-other c (b ∷ s) h k = (ground arith, All-other c s h k.1)

-- The Range header that a resumed download sends is read as the number that was written, for every
-- int64.
pub parse_range_start-range_header :
    (start : ℕ) → start < 2 ^ 63 → parse_range_start (range_header start) ≡ some start
unfolding parse_range_start range_header cut_prefix
parse_range_start-range_header start h =
    rw (cut_last-append b'-' (decimal start), parse_range_start) (parse-decimal start h)

first_of_lem :
    (s rest : Bytes) → All IsDigit s → s ≢ [] → first_of (s ++ b'-' ∷ rest) ≡ parse_int64 s
unfolding first_of
first_of_lem [] rest h k = absurd (k refl)
first_of_lem (c ∷ s) rest h k =
    rw (split_first-append b'-' (c ∷ s) rest (All-other b'-' (c ∷ s) refl h), first_of) refl

-- The Content-Range header of a partial answer is read as the first byte and the size that were
-- written, for all int64 values of the two.
pub parse_content_range-content_range :
    (start size : ℕ)
    → start < 2 ^ 63
    → size < 2 ^ 63
    → parse_content_range (content_range start size)
      ≡ record { first = some start; complete = some size }
unfolding parse_content_range content_range cut_prefix
parse_content_range-content_range start size h k =
    rw
      (
        split_last-append b'/' (decimal start ++ b'-' ∷ decimal (size - 1)) (decimal size)
            (All-other b'/' (decimal size) refl (decimal-All size)),
        parse_content_range,
      )
      (rw
        (
          first_of_lem (decimal start) (decimal (size - 1)) (decimal-All start)
              (decimal-ne-nil start),
          parse-decimal start h,
          parse-decimal size k,
        )
        refl)
