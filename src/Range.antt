-- ===== src/Range.antt =====
-- The two range headers of a resumed download, as bytes: Range, which the consumer writes and
-- internal/dsp/data_handler.go reads, and Content-Range, which that file writes and
-- internal/dsp/transfer_consumer_handler.go reads. `parse_int64` is `strconv.ParseInt(s, 10, 64)`
-- together with the callers' test that the number is not negative.
pub mod Laws
use Prim.Native.Nat.{◌-◌, ◌*◌, ◌/◌, ◌%◌, ◌^◌}
use Prim.Native.Char.{code}
use dataspace_in_a_box.Base.{
  ℕ, zero, suc, ◌+◌, String, Bool, true, false, ◌&&◌, ◌||◌, Option, none, some, List, [], ◌∷◌, ◌++◌,
  ltb, leb, if◌then◌else◌,
}

abbrev pub Bytes : Type 0
Bytes = List ℕ

-- A literal is ASCII here, so its bytes are its code points.
abbrev pub codes : String → Bytes
codes String.[] = []
codes (String.◌∷◌ c s) = code c ∷ codes s

abbrev pub same : ℕ → ℕ → Bool
same a b = leb a b && leb b a

abbrev pub is_digit : ℕ → Bool
is_digit c = leb b'0' c && leb c b'9'

-- The digits of a number below 2 ^ 63; a longer one is refused.
unfoldable pub with_digit : ℕ → ℕ → ℕ
with_digit acc c = acc * 10 + (c - b'0')

unfoldable pub read_digits : ℕ → Bytes → Option ℕ
unfolding with_digit
read_digits acc [] = some acc
read_digits acc (c ∷ s) =
    if is_digit c && ltb (with_digit acc c) (2 ^ 63) then read_digits (with_digit acc c) s else none

unfoldable pub unsigned : Bytes → Option ℕ
unfolding read_digits
unsigned [] = none
unsigned (c ∷ s) = read_digits 0 (c ∷ s)

-- Of the numbers written with a minus sign only zero is not negative.
unfoldable pub only_zero : Option ℕ → Option ℕ
only_zero none = none
only_zero (some n) = if same n 0 then some 0 else none

unfoldable pub parse_int64 : Bytes → Option ℕ
unfolding unsigned only_zero
parse_int64 [] = none
parse_int64 (c ∷ s) =
    if same c b'+'
    then unsigned s
    else if same c b'-'
    then only_zero (unsigned s)
    else unsigned (c ∷ s)

-- `strings.CutPrefix`.
unfoldable pub cut_prefix : Bytes → Bytes → Option Bytes
cut_prefix [] s = some s
cut_prefix (p ∷ ps) [] = none
cut_prefix (p ∷ ps) (c ∷ s) = if same p c then cut_prefix ps s else none

-- What stands before the last byte, where that is `c`.
unfoldable pub cut_last : ℕ → Bytes → Option Bytes
cut_last c [] = none
cut_last c (b ∷ []) = if same b c then some [] else none
cut_last c (b ∷ a ∷ s) = elim (cut_last c (a ∷ s)) [ none ↦ none | some r ↦ some (b ∷ r) ]

-- `strings.IndexByte`: what stands before and behind the first `c`.
unfoldable pub split_first : ℕ → Bytes → Option (Bytes × Bytes)
split_first c [] = none
split_first c (b ∷ s) =
    if same b c
    then some ([], s)
    else elim (split_first c s) [ none ↦ none | some (l, r) ↦ some (b ∷ l, r) ]

-- `strings.LastIndexByte`.
unfoldable pub split_last : ℕ → Bytes → Option (Bytes × Bytes)
split_last c [] = none
split_last c (b ∷ s) = elim (split_last c s) [
  | some (l, r) ↦ some (b ∷ l, r)
  | none ↦ if same b c then some ([], s) else none
]

unfoldable pub parse_range_start : Bytes → Option ℕ
parse_range_start header = elim (cut_prefix (codes "bytes=") header) [
  | none ↦ none
  | some rest ↦ elim (cut_last b'-' rest) [ none ↦ none | some digits ↦ parse_int64 digits ]
]

pub record ContentRange : Type 0 where
  pub first : Option ℕ
  pub complete : Option ℕ

-- `dash > 0`: a minus sign in front is no first byte.
unfoldable pub first_of : Bytes → Option ℕ
first_of range_part = elim (split_first b'-' range_part) [
  | none ↦ none
  | some (l, r) ↦ elim l [ [] ↦ none | c ∷ s ↦ parse_int64 (c ∷ s) ]
]

unfoldable pub parse_content_range : Bytes → ContentRange
parse_content_range header = elim (cut_prefix (codes "bytes ") header) [
  | none ↦ record { first = none; complete = none }
  | some rest ↦ elim (split_last b'/' rest) [
    | none ↦ record { first = none; complete = none }
    | some (range_part, complete_part) ↦ record {
      first = first_of range_part;
      complete = parse_int64 complete_part;
    }
  ]
]

-- `%d`: the fuel is the number itself plus one, which is enough since each round divides by ten.
unfoldable pub digits : ℕ → ℕ → Bytes → Bytes
digits zero n out = out
digits (suc fuel) n out =
    let rest = digits fuel (n / 10) ((b'0' + n % 10) ∷ out) in
    if ltb n 10 then (b'0' + n % 10) ∷ out else rest

unfoldable pub decimal : ℕ → Bytes
unfolding digits
decimal n = digits (suc n) n []

-- `fmt.Sprintf("bytes=%d-", existingSize)`
unfoldable pub range_header : ℕ → Bytes
range_header start = codes "bytes=" ++ decimal start ++ b'-' ∷ []

-- `fmt.Sprintf("bytes %d-%d/%d", start, size-1, size)`
unfoldable pub content_range : ℕ → ℕ → Bytes
content_range start size =
    codes "bytes " ++ decimal start ++ b'-' ∷ decimal (size - 1) ++ b'/' ∷ decimal size
