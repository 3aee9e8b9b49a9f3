-- ===== src/Script/Laws.antt =====
-- What the script that cmd/mdscript/main.go extracts consists of.
use mathlib.Core.Path.{subst}
use dataspace_in_a_box.Base.{
  ℕ, suc, ◌≡◌, refl, sym, ap, ◌∙◌, inl, inr, Bool, true, false, not, List, [], ◌∷◌, ◌++◌,
  Bool-cases, Option-cases, arith, ◌⊎◌, false≢true,
}
use dataspace_in_a_box.Range.{Bytes, codes}
use dataspace_in_a_box.Auth.Roster.{ends_in}
use dataspace_in_a_box.Gate.{is_empty}
use dataspace_in_a_box.Gate.Lines.{same_bytes}
use dataspace_in_a_box.Script.{
  BlockMode, skip, verbatim, literal_file, expanded_file, Shape, open_fence, closes_fence,
  parse_info, Info, Scan, open_block, close_block, ExtractError, ScanStep, next, refused,
  ends_heredoc, with_line, body_line, outside_line, scan_line, extracted, finish, scan_lines,
  extract,
}
use dataspace_in_a_box.Script.Blocks.{
  Block, command, file, Fits, kind, note, append_nil, Written, Writing, Laid, Written-close,
  extended, opening,
}

module _ (name : Bytes) where
  record Good (s : Scan) : Type 0 where
    laid : Laid name s.block s.out s.shape
    idle : s.in_block ≡ false → s.block ≡ skip

  open_block-Laid :
      (titled expand : Bool) (fence : Bytes) (info : Info) (s : Scan)
      → Written name s.out s.shape
      → Good (open_block titled expand fence info s)
  unfolding open_block
  open_block-Laid true true fence info s w = record {
    laid = opening name (file true info.title []) s.out s.shape tt w;
    idle = λ e. absurd (ground arith);
  }
  open_block-Laid true false fence info s w = record {
    laid = opening name (file false info.title []) s.out s.shape tt w;
    idle = λ e. absurd (ground arith);
  }
  open_block-Laid false expand fence info s w =
      elim (Bool-cases (same_bytes info.lang (codes "sh"))) [
        | inl e ↦ rw e (record {
          laid =
              subst (λ o. Writing name verbatim o (note (command []) s.shape)) (append_nil s.out)
                (opening name (command []) s.out s.shape tt w);
          idle = λ h. absurd (ground arith);
        })
        | inr e ↦ rw e (record { laid = w; idle = λ h. absurd (ground arith) })
      ]

  close_block-Good : (s : Scan) → Laid name s.block s.out s.shape → Good (close_block s)
  unfolding close_block
  close_block-Good s w = record {
    laid = Written-close name s.block s.out s.shape w;
    idle = λ h. refl;
  }

  -- A line that is copied belongs to the block that is open.
  kind-Fits :
      (b : Block) (n : ℕ) (line : Bytes) (s s' : Scan)
      → body_line (kind b) n line s ≡ next s'
      → Fits b line × (with_line line s ≡ s')
  unfolding body_line
  kind-Fits (command body) n line s s' h = (tt, ground arith)
  kind-Fits (file false title body) n line s s' h = elim (Bool-cases (ends_heredoc line)) [
    | inl e ↦ absurd (ground arith)
    | inr e ↦ ((e, λ x. absurd (false≢true x)), ground arith)
  ]
  kind-Fits (file true title body) n line s s' h = elim (Bool-cases (ends_heredoc line)) [
    | inl e ↦ absurd (ground arith)
    | inr e ↦ elim (Bool-cases (ends_in b'\\' line)) [
      | inl f ↦ absurd (ground arith)
      | inr f ↦ ((e, λ x. f), ground arith)
    ]
  ]

  grown :
      (mode : BlockMode) (n : ℕ) (line : Bytes) (s s' : Scan)
      → body_line mode n line s ≡ next s'
      → Writing name mode s.out s.shape
      → Writing name mode (s.out ++ line ∷ []) s.shape × (with_line line s ≡ s')
  grown mode n line s s' h w =
      let (fits, same) =
        kind-Fits w.current n line s s' (ap (λ m. body_line m n line s) w.opened ∙ h) in
      (extended name mode s.out s.shape line w fits, same)

  with_line-Good :
      (mode : BlockMode) (line : Bytes) (s : Scan)
      → s.block ≡ mode
      → s.in_block ≡ true
      → Laid name mode (s.out ++ line ∷ []) s.shape
      → Good (with_line line s)
  with_line-Good mode line s at on w = record {
    laid = subst (λ m. Laid name m (s.out ++ line ∷ []) s.shape) (sym at) w;
    idle = λ off. absurd (false≢true (sym off ∙ on));
  }

  body_line-Good :
      (mode : BlockMode) (n : ℕ) (line : Bytes) (s s' : Scan)
      → body_line mode n line s ≡ next s'
      → s.block ≡ mode
      → s.in_block ≡ true
      → Good s
      → Laid name mode s.out s.shape
      → Good s'
  unfolding body_line
  body_line-Good skip n line s s' h at on good w =
      let same : s ≡ s' = ground arith in subst Good same good
  body_line-Good verbatim n line s s' h at on good w =
      let (more, same) = grown verbatim n line s s' h w in
      subst Good same (with_line-Good verbatim line s at on more)
  body_line-Good literal_file n line s s' h at on good w =
      let (more, same) = grown literal_file n line s s' h w in
      subst Good same (with_line-Good literal_file line s at on more)
  body_line-Good expanded_file n line s s' h at on good w =
      let (more, same) = grown expanded_file n line s s' h w in
      subst Good same (with_line-Good expanded_file line s at on more)

  Good-Written : (s : Scan) → s.in_block ≡ false → Good s → Written name s.out s.shape
  Good-Written s off good = subst (λ m. Laid name m s.out s.shape) (good.idle off) good.laid

  outside_line-Good :
      (line : Bytes) (s s' : Scan)
      → outside_line line s ≡ next s'
      → s.in_block ≡ false
      → Good s
      → Good s'
  unfolding outside_line
  outside_line-Good line s s' h off good = elim (Option-cases (open_fence line)) [
    | inl e ↦ let same : s ≡ s' = ground arith in subst Good same good
    | inr ((fence, text), e) ↦
        let info = parse_info text in
        let titled = not (is_empty info.title) in
        let same : open_block titled info.expand fence info s ≡ s' = ground arith in
        subst Good same (open_block-Laid titled info.expand fence info s (Good-Written s off good))
  ]

  scan_line-Good :
      (n : ℕ) (line : Bytes) (s s' : Scan) → scan_line n line s ≡ next s' → Good s → Good s'
  unfolding scan_line
  scan_line-Good n line s s' h good = elim (Bool-cases s.in_block) [
    | inr off ↦
        let out : outside_line line s ≡ next s' = ground arith in
        outside_line-Good line s s' out off good
    | inl on ↦ elim (Bool-cases (closes_fence line s.fence)) [
      | inl e ↦
          let same : close_block s ≡ s' = ground arith in
          subst Good same (close_block-Good s good.laid)
      | inr e ↦
          let inside : body_line s.block n line s ≡ next s' = ground arith in
          body_line-Good s.block n line s s' inside refl on good good.laid
    ]
  ]

  ScanStep-cases :
      (t : ScanStep) → ((s : Scan) × (t ≡ next s)) ⊎ ((x : ExtractError) × (t ≡ refused x))
  ScanStep-cases (next s) = inl (s, refl)
  ScanStep-cases (refused x) = inr (x, refl)

  scan_lines-Written :
      (n : ℕ) (doc : List Bytes) (s : Scan) (out : List Bytes) (shape : Shape)
      → scan_lines n doc s ≡ extracted out shape
      → Good s
      → Written name out shape
  unfolding scan_lines finish
  scan_lines-Written n [] s out shape h good = elim (Bool-cases s.in_block) [
    | inl on ↦ absurd (ground arith)
    | inr off ↦
        let same_out : s.out ≡ out = ground arith in
        let same_shape : s.shape ≡ shape = ground arith in
        subst (Written name out) same_shape
          (subst (λ o. Written name o s.shape) same_out (Good-Written s off good))
  ]
  scan_lines-Written n (line ∷ lines) s out shape h good =
      elim (ScanStep-cases (scan_line (suc n) line s)) [
        | inr (x, e) ↦ absurd (ground arith)
        | inl (s', e) ↦
            let rest : scan_lines (suc n) lines s' ≡ extracted out shape = ground arith in
            scan_lines-Written (suc n) lines s' out shape rest
              (scan_line-Good (suc n) line s s' e good)
      ]

  -- A script that is extracted is its first line and then whole blocks, each of them commands or a
  -- file between the line that opens its heredoc and the delimiter. No line of a file is taken for the
  -- delimiter, and none of a file that is expanded ends with a backslash. The shape counts the
  -- blocks of commands, the files and the files that are expanded.
  pub extract-Written :
      (doc : List Bytes) (out : List Bytes) (shape : Shape)
      → extract name doc ≡ extracted out shape
      → Written name out shape
  unfolding extract
  extract-Written doc out shape h = scan_lines-Written 0 doc _ out shape h (record {
    laid = record { blocks = []; safe = tt; lines = refl; counts = refl };
    idle = λ e. refl;
  })
