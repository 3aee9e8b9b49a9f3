-- ===== src/Script.antt =====
-- The extraction of a shell script from a Markdown document: cmd/mdscript/main.go. A document and a
-- script are lists of lines, and a line is the list of its code points; a line that the scanner finds
-- too long stops it before the loop sees it, so no line here is of that length.
pub mod Blocks
pub mod Laws
use dataspace_in_a_box.Base.{
  ℕ, suc, Bool, true, false, not, ◌&&◌, Option, none, some, List, [], ◌∷◌, ◌++◌, ltb, leb, length,
  if◌then◌else◌,
}
use dataspace_in_a_box.Range.{Bytes, same, codes, cut_prefix}
use dataspace_in_a_box.Auth.Middleware.{is_space}
use dataspace_in_a_box.Auth.Roster.{ends_in}
use dataspace_in_a_box.Gate.{is_empty, begins_with}
use dataspace_in_a_box.Gate.Lines.{same_bytes, span, trim_space}

abbrev pub heredoc_delimiter : Bytes
heredoc_delimiter = codes "EOF"

pub data BlockMode : Type 0 where
  skip verbatim literal_file expanded_file : BlockMode

pub record Shape : Type 0 where
  pub commands : ℕ
  pub files : ℕ
  pub expansions : ℕ

unfoldable pub is_tick : ℕ → Bool
is_tick c = same c b'`'

-- The fence and the info string.
unfoldable pub open_fence : Bytes → Option (Bytes × Bytes)
open_fence line =
    let (ticks, rest) = span is_tick (span (same 32) line).1 in
    if ltb (length ticks) 3 then none else some (ticks, trim_space rest)

-- Nothing is left of a text without its ticks exactly if it has only ticks.
unfoldable pub closes_fence : Bytes → Bytes → Bool
closes_fence line fence =
    let t = trim_space line in
    not (is_empty t) && (leb (length fence) (length t) && is_empty (span is_tick t).1)

unfoldable pub add_to_first : ℕ → List Bytes → List Bytes
add_to_first c [] = (c ∷ []) ∷ []
add_to_first c (f ∷ fs) = (c ∷ f) ∷ fs

unfoldable pub in_field : Bytes → Bool
in_field [] = false
in_field (c ∷ s) = not (is_space c)

-- `strings.Fields`
unfoldable pub fields : Bytes → List Bytes
fields [] = []
fields (c ∷ s) =
    let rest = fields s in
    if is_space c then rest else if in_field s then add_to_first c rest else (c ∷ []) ∷ rest

pub record Info : Type 0 where
  pub lang : Bytes
  pub title : Bytes
  pub expand : Bool

unfoldable pub read_field : Bool → Bytes → Info → Info
read_field first f info =
    if same_bytes f (codes "expand")
    then record info { expand = true }
    else elim (cut_prefix (codes "title=") f) [
      | some title ↦ record info { title = title }
      | none ↦ if first then record info { lang = f } else info
    ]

unfoldable pub read_fields : Bool → List Bytes → Info → Info
read_fields first [] info = info
read_fields first (f ∷ fs) info = read_fields false fs (read_field first f info)

unfoldable pub parse_info : Bytes → Info
parse_info info = read_fields true (fields info) (record { lang = []; title = []; expand = false })

-- The variables of the loop.
pub record Scan : Type 0 where
  pub out : List Bytes
  pub shape : Shape
  pub block : BlockMode
  pub fence : Bytes
  pub in_block : Bool

abbrev pub heredoc_line : Bool → Bytes → Bytes
heredoc_line true title = codes "cat > " ++ title ++ codes " <<" ++ heredoc_delimiter
heredoc_line false title = codes "cat > " ++ title ++ codes " <<'" ++ heredoc_delimiter ++ codes "'"

-- The `switch` on the info string, with the two tests on the title and on expansion.
unfoldable pub open_block : Bool → Bool → Bytes → Info → Scan → Scan
open_block true true fence info s = record s {
  in_block = true;
  fence = fence;
  block = expanded_file;
  shape = record s.shape { files = suc s.shape.files; expansions = suc s.shape.expansions };
  out = s.out ++ heredoc_line true info.title ∷ [];
}
open_block true false fence info s = record s {
  in_block = true;
  fence = fence;
  block = literal_file;
  shape = record s.shape { files = suc s.shape.files };
  out = s.out ++ heredoc_line false info.title ∷ [];
}
open_block false expand fence info s =
    if same_bytes info.lang (codes "sh")
    then record s {
      in_block = true;
      fence = fence;
      block = verbatim;
      shape = record s.shape { commands = suc s.shape.commands };
    }
    else record s { in_block = true; fence = fence; block = skip }

unfoldable pub closing_lines : BlockMode → List Bytes
closing_lines skip = []
closing_lines verbatim = []
closing_lines literal_file = heredoc_delimiter ∷ []
closing_lines expanded_file = heredoc_delimiter ∷ []

unfoldable pub close_block : Scan → Scan
close_block s = record s { out = s.out ++ closing_lines s.block; in_block = false; block = skip }

pub data ExtractError : Type 0 where
  holds_terminator : ℕ → ExtractError
  ends_with_backslash : ℕ → ExtractError
  unterminated : ExtractError

pub data ScanStep : Type 0 where
  next : Scan → ScanStep
  refused : ExtractError → ScanStep

-- `strings.TrimRight(text, " \t")`
unfoldable pub trim_blanks : Bytes → Bytes
trim_blanks [] = []
trim_blanks (c ∷ s) = elim (trim_blanks s) [
  | [] ↦ if same c 32 then [] else if same c 9 then [] else c ∷ []
  | d ∷ t ↦ c ∷ (d ∷ t)
]

unfoldable pub ends_heredoc : Bytes → Bool
ends_heredoc line = same_bytes (trim_blanks line) heredoc_delimiter

abbrev pub with_line : Bytes → Scan → Scan
with_line line s = record s { out = s.out ++ line ∷ [] }

unfoldable pub body_line : BlockMode → ℕ → Bytes → Scan → ScanStep
body_line skip n line s = next s
body_line verbatim n line s = next (with_line line s)
body_line literal_file n line s =
    if ends_heredoc line then refused (holds_terminator n) else next (with_line line s)
body_line expanded_file n line s =
    if ends_heredoc line
    then refused (holds_terminator n)
    else if ends_in b'\\' line
    then refused (ends_with_backslash n)
    else next (with_line line s)

-- One line of the loop, of the given number.
unfoldable pub outside_line : Bytes → Scan → ScanStep
outside_line line s = elim (open_fence line) [
  | none ↦ next s
  | some (fence, text) ↦
      let info = parse_info text in
      next (open_block (not (is_empty info.title)) info.expand fence info s)
]

unfoldable pub scan_line : ℕ → Bytes → Scan → ScanStep
scan_line n line s =
    if not s.in_block
    then outside_line line s
    else if closes_fence line s.fence
    then next (close_block s)
    else body_line s.block n line s

pub data Extraction : Type 0 where
  extracted : List Bytes → Shape → Extraction
  failed : ExtractError → Extraction

unfoldable pub finish : Scan → Extraction
finish s = if s.in_block then failed unterminated else extracted s.out s.shape

unfoldable pub scan_lines : ℕ → List Bytes → Scan → Extraction
scan_lines n [] s = finish s
scan_lines n (line ∷ lines) s = elim (scan_line (suc n) line s) [
  | next s' ↦ scan_lines (suc n) lines s'
  | refused x ↦ failed x
]

abbrev pub first_line : Bytes → Bytes
first_line name = codes "# Generated by cmd/mdscript from " ++ name ++ codes ". Do not edit."

unfoldable pub extract : Bytes → List Bytes → Extraction
extract name doc = scan_lines 0 doc (record {
  out = first_line name ∷ [];
  shape = record { commands = 0; files = 0; expansions = 0 };
  block = skip;
  fence = [];
  in_block = false;
})
