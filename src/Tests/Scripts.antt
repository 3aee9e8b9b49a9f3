-- ===== src/Tests/Scripts.antt =====
-- A document with commands and a file.
use dataspace_in_a_box.Base.{List, [], ◌∷◌, ◌≡◌, refl}
use dataspace_in_a_box.Range.{Bytes, codes, cut_prefix}
use dataspace_in_a_box.Auth.Middleware.{is_space}
use dataspace_in_a_box.Auth.Roster.{ends_in}
use dataspace_in_a_box.Gate.{is_empty}
use dataspace_in_a_box.Gate.Lines.{same_bytes, span, trim_space, trim_end}
use dataspace_in_a_box.Script.{
  is_tick, open_fence, closes_fence, add_to_first, in_field, fields, read_field, read_fields,
  parse_info, open_block, closing_lines, close_block, trim_blanks, ends_heredoc, body_line,
  outside_line, scan_line, extracted, failed, holds_terminator, finish, scan_lines, extract,
}
use dataspace_in_a_box.Script.Blocks.{Written}
use dataspace_in_a_box.Script.Laws.{extract-Written}

abbrev document : Bytes → List Bytes
document line =
    codes "# Start"
    ∷ codes "```sh"
    ∷ codes "make"
    ∷ codes "```"
    ∷ codes "```yaml title=c.yaml expand"
    ∷ line
    ∷ codes "```"
    ∷ []

abbrev script : List Bytes
script =
    codes "# Generated by cmd/mdscript from d.md. Do not edit."
    ∷ codes "make"
    ∷ codes "cat > c.yaml <<EOF"
    ∷ codes "id: $ID"
    ∷ codes "EOF"
    ∷ []

document_extracts :
    extract (codes "d.md") (document (codes "id: $ID"))
    ≡ extracted script (record { commands = 1; files = 1; expansions = 1 })
unfolding is_empty same_bytes span trim_space trim_end is_tick open_fence closes_fence add_to_first
    in_field fields read_field read_fields parse_info open_block closing_lines close_block
    trim_blanks ends_heredoc body_line outside_line scan_line finish scan_lines extract cut_prefix
    is_space ends_in
document_extracts = refl

document_refused : extract (codes "d.md") (document (codes "EOF ")) ≡ failed (holds_terminator 6)
unfolding is_empty same_bytes span trim_space trim_end is_tick open_fence closes_fence add_to_first
    in_field fields read_field read_fields parse_info open_block closing_lines close_block
    trim_blanks ends_heredoc body_line outside_line scan_line finish scan_lines extract cut_prefix
    is_space ends_in
document_refused = refl

extract-Written_example :
    Written (codes "d.md") script (record { commands = 1; files = 1; expansions = 1 })
extract-Written_example =
    extract-Written (codes "d.md") (document (codes "id: $ID")) script
      (record { commands = 1; files = 1; expansions = 1 }) document_extracts
