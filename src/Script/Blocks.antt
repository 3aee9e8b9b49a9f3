-- ===== src/Script/Blocks.antt =====
-- The blocks of a script that cmd/mdscript/main.go extracts.
use mathlib.Core.Path.{subst}
use dataspace_in_a_box.Base.{
  suc, ◌≡◌, refl, sym, ap, ◌∙◌, Bool, true, false, List, [], ◌∷◌, ◌++◌, All, All-append,
}
use dataspace_in_a_box.Range.{Bytes}
use dataspace_in_a_box.Auth.Roster.{ends_in}
use dataspace_in_a_box.Script.{
  heredoc_delimiter, BlockMode, skip, verbatim, literal_file, expanded_file, Shape, heredoc_line,
  closing_lines, ends_heredoc, first_line,
}

-- A block of the script: commands, or a file with its title, its expansion and its lines.
pub data Block : Type 0 where
  command : List Bytes → Block
  file : Bool → Bytes → List Bytes → Block

abbrev pub lines_of : Block → List Bytes
lines_of (command body) = body
lines_of (file expand title body) = heredoc_line expand title ∷ body

abbrev pub ending : Block → List Bytes
ending (command body) = []
ending (file expand title body) = heredoc_delimiter ∷ []

abbrev pub render : Block → List Bytes
render b = lines_of b ++ ending b

abbrev pub render_all : List Block → List Bytes
render_all [] = []
render_all (b ∷ bs) = render b ++ render_all bs

abbrev pub note : Block → Shape → Shape
note (command body) s = record s { commands = suc s.commands }
note (file true title body) s = record s { files = suc s.files; expansions = suc s.expansions }
note (file false title body) s = record s { files = suc s.files }

abbrev pub shape_of : List Block → Shape
shape_of [] = record { commands = 0; files = 0; expansions = 0 }
shape_of (b ∷ bs) = note b (shape_of bs)

-- A line of a file that the shell does not take for the end of the file.
abbrev pub SafeLine : Bool → Bytes → Type 0
SafeLine expand line = (ends_heredoc line ≡ false) × (expand ≡ true → ends_in b'\\' line ≡ false)

abbrev pub Safe : Block → Type 0
Safe (command body) = Unit
Safe (file expand title body) = All (SafeLine expand) body

append_assoc : (xs ys zs : List Bytes) → (xs ++ ys) ++ zs ≡ xs ++ (ys ++ zs)
append_assoc [] ys zs = refl
append_assoc (x ∷ xs) ys zs = ap (λ t. x ∷ t) (append_assoc xs ys zs)

pub append_nil : (xs : List Bytes) → xs ++ [] ≡ xs
append_nil [] = refl
append_nil (x ∷ xs) = ap (λ t. x ∷ t) (append_nil xs)

render_all-append :
    (bs : List Block) (b : Block) → render_all (bs ++ b ∷ []) ≡ render_all bs ++ render b
render_all-append [] b = append_nil (render b)
render_all-append (c ∷ bs) b =
    ap (λ t. render c ++ t) (render_all-append bs b)
    ∙ sym (append_assoc (render c) (render_all bs) (render b))

note_comm : (b c : Block) (s : Shape) → note b (note c s) ≡ note c (note b s)
note_comm (command x) (command y) s = refl
note_comm (command x) (file true t y) s = refl
note_comm (command x) (file false t y) s = refl
note_comm (file true u x) (command y) s = refl
note_comm (file true u x) (file true t y) s = refl
note_comm (file true u x) (file false t y) s = refl
note_comm (file false u x) (command y) s = refl
note_comm (file false u x) (file true t y) s = refl
note_comm (file false u x) (file false t y) s = refl

shape_of-append : (bs : List Block) (b : Block) → shape_of (bs ++ b ∷ []) ≡ note b (shape_of bs)
shape_of-append [] b = refl
shape_of-append (c ∷ bs) b = ap (note c) (shape_of-append bs b) ∙ note_comm c b (shape_of bs)

abbrev pub kind : Block → BlockMode
kind (command body) = verbatim
kind (file true title body) = expanded_file
kind (file false title body) = literal_file

closing_lines-kind : (b : Block) → closing_lines (kind b) ≡ ending b
unfolding closing_lines
closing_lines-kind (command body) = refl
closing_lines-kind (file true title body) = refl
closing_lines-kind (file false title body) = refl

-- A block with one line more.
abbrev extend : Block → Bytes → Block
extend (command body) line = command (body ++ line ∷ [])
extend (file expand title body) line = file expand title (body ++ line ∷ [])

abbrev pub Fits : Block → Bytes → Type 0
Fits (command body) line = Unit
Fits (file expand title body) line = SafeLine expand line

Safe-extend : (b : Block) (line : Bytes) → Safe b → Fits b line → Safe (extend b line)
Safe-extend (command body) line s f = tt
Safe-extend (file expand title body) line s f =
    All-append (SafeLine expand) body (line ∷ []) s (f, tt)

lines_of-extend : (b : Block) (line : Bytes) → lines_of (extend b line) ≡ lines_of b ++ line ∷ []
lines_of-extend (command body) line = refl
lines_of-extend (file expand title body) line = refl

kind-extend : (b : Block) (line : Bytes) → kind (extend b line) ≡ kind b
kind-extend (command body) line = refl
kind-extend (file true title body) line = refl
kind-extend (file false title body) line = refl

note-extend : (b : Block) (line : Bytes) (s : Shape) → note (extend b line) s ≡ note b s
note-extend (command body) line s = refl
note-extend (file true title body) line s = refl
note-extend (file false title body) line s = refl

module _ (name : Bytes) where
  -- A script of these blocks.
  pub record Written (out : List Bytes) (shape : Shape) : Type 0 where
    pub blocks : List Block
    pub safe : All Safe blocks
    pub lines : out ≡ first_line name ∷ render_all blocks
    pub counts : shape ≡ shape_of blocks

  -- The same with a block that is still open.
  pub record Writing (mode : BlockMode) (out : List Bytes) (shape : Shape) : Type 0 where
    pub before : List Block
    pub current : Block
    pub opened : kind current ≡ mode
    pub safe_before : All Safe before
    pub safe_current : Safe current
    pub lines : out ≡ (first_line name ∷ render_all before) ++ lines_of current
    pub counts : shape ≡ note current (shape_of before)

  abbrev pub Laid : BlockMode → List Bytes → Shape → Type 0
  Laid skip = Written
  Laid verbatim = Writing verbatim
  Laid literal_file = Writing literal_file
  Laid expanded_file = Writing expanded_file

  closed :
      (mode : BlockMode) (out : List Bytes) (shape : Shape)
      → Writing mode out shape
      → Written (out ++ closing_lines mode) shape
  closed mode out shape w =
      let end : closing_lines mode ≡ ending w.current =
        ap closing_lines (sym w.opened) ∙ closing_lines-kind w.current in
      record {
        blocks = w.before ++ w.current ∷ [];
        safe = All-append Safe w.before (w.current ∷ []) w.safe_before (w.safe_current, tt);
        lines =
            rw (end, w.lines)
              (append_assoc (first_line name ∷ render_all w.before) (lines_of w.current)
                  (ending w.current)
                ∙ ap (λ t. first_line name ∷ t) (sym (render_all-append w.before w.current)));
        counts = w.counts ∙ sym (shape_of-append w.before w.current);
      }

  pub Written-close :
      (mode : BlockMode) (out : List Bytes) (shape : Shape)
      → Laid mode out shape
      → Written (out ++ closing_lines mode) shape
  unfolding closing_lines
  Written-close skip out shape w = subst (λ o. Written o shape) (sym (append_nil out)) w
  Written-close verbatim out shape w = closed verbatim out shape w
  Written-close literal_file out shape w = closed literal_file out shape w
  Written-close expanded_file out shape w = closed expanded_file out shape w

  pub extended :
      (mode : BlockMode) (out : List Bytes) (shape : Shape) (line : Bytes)
      (w : Writing mode out shape)
      → Fits w.current line
      → Writing mode (out ++ line ∷ []) shape
  extended mode out shape line w fits = record {
    before = w.before;
    current = extend w.current line;
    opened = kind-extend w.current line ∙ w.opened;
    safe_before = w.safe_before;
    safe_current = Safe-extend w.current line w.safe_current fits;
    lines =
        ap (λ t. t ++ line ∷ []) w.lines
        ∙ append_assoc (first_line name ∷ render_all w.before) (lines_of w.current) (line ∷ [])
        ∙ ap (λ t. (first_line name ∷ render_all w.before) ++ t)
            (sym (lines_of-extend w.current line));
    counts = w.counts ∙ sym (note-extend w.current line (shape_of w.before));
  }

  pub opening :
      (b : Block) (out : List Bytes) (shape : Shape)
      → Safe b
      → Written out shape
      → Writing (kind b) (out ++ lines_of b) (note b shape)
  opening b out shape safe w = record {
    before = w.blocks;
    current = b;
    opened = refl;
    safe_before = w.safe;
    safe_current = safe;
    lines = ap (λ t. t ++ lines_of b) w.lines;
    counts = ap (note b) w.counts;
  }
