-- ===== src/Line/Columns.antt =====
-- The whole ESP32-CSI-Tool line, where the buffer is large enough.
use esp_csi_rs.Base.{
  ℕ, ◌+◌, ◌-◌, ◌*◌, ◌≤◌, ◌≡◌, refl, sym, ap, ◌∙◌, subst, map, suc, true, false, some, List, [], ◌∷◌,
  ◌++◌, ltb, if-false, leb, if-true, length, length-append, length-take, append_nil, take, All,
  All-append, arith,
}
use mathlib.Core.List.{append_assoc}
use esp_csi_rs.Base.Text.{codes}
use esp_csi_rs.Base.Int.{IsI8, ℤ}
use esp_csi_rs.Decimal.{i8_digits, write_slice}
use esp_csi_rs.Row.{TextRow}
use esp_csi_rs.Line.{
  Column, esp_csi_tool_header, Role, columns_writes, emit_len, format_csi_tool_into, tool_columns,
  write_body,
}
use esp_csi_rs.Line.Array.{i8_digits-short, write_i8_sep-room}
use esp_csi_rs.Line.Bracketed.{
  ReadBack, bracketed, sample_column, sample_texts_read, spaced, spaced-NoComma, spaced-short,
}
use esp_csi_rs.Line.Names.{
  header_columns, header_names, name_text, shown, split-esp_csi_tool_header, take-emit_len,
  tool_columns-header_columns,
}
use esp_csi_rs.Line.Split.{split}
use esp_csi_rs.Line.Texts.{IsColumn, ShowAll}
use esp_csi_rs.Line.Tool.{columns_texts, flatten-append, widths, write_list-flatten}

write_body-room :
    (room body_cap : ℕ) (vs : List ℤ) (out : List ℕ)
    → body_cap ≤ room
    → length out + length vs * 5 ≤ body_cap
    → write_body room body_cap vs out ≡ some (out ++ spaced vs)
unfolding write_body
write_body-room room body_cap [] out below fits = ap some (sym (append_nil out))
write_body-room room body_cap (v ∷ vs) out below fits =
    let next : List ℕ = out ++ (i8_digits v ++ (b' ' ∷ [])) in
    let size = length-append out (i8_digits v ++ (b' ' ∷ [])) in
    let size' = length-append (i8_digits v) (b' ' ∷ []) in
    if-false _ _ (not_ltb body_cap (length out + 5) (omega arith))
    ∙ rw (write_i8_sep-room room v b' ' out (omega arith)) (
        write_body-room room body_cap vs next below (omega (arith, size, size', i8_digits-short v))
        ∙ ap some (simp append_assoc))
  where
    not_ltb : (a b : ℕ) → b ≤ a → ltb a b ≡ false
    not_ltb a b h = ground arith

emit_len-take :
    (cap : ℕ) (row : TextRow) → length (take (emit_len cap row) row.samples) ≡ emit_len cap row
emit_len-take cap row = ground (arith, length-take (emit_len cap row) row.samples)

-- The room that the line asks for at most.
abbrev pub tool_room : Role → ℕ → TextRow → ℕ
tool_room role cap row = widths (header_columns role cap row) + 1 + length (shown cap row) * 5 + 2

line_shows :
    (room : ℕ) (role : Role) (cap : ℕ) (row : TextRow)
    → All IsColumn (tool_columns role cap row)
    → widths (tool_columns role cap row) + 1 + emit_len cap row * 5 + 2 ≤ room
    → let printed = take (emit_len cap row) row.samples in
      (line : List ℕ) × (texts : List (List ℕ)) × (format_csi_tool_into room role cap row
        ≡ some line)
      × (split line ≡ texts ++ (sample_column printed ∷ []))
      × ShowAll (tool_columns role cap row) texts
unfolding format_csi_tool_into write_slice
line_shows room role cap row ok fits =
    let (texts, line, ts) = columns_texts (tool_columns role cap row) ok in
    let printed : List ℤ = take (emit_len cap row) row.samples in
    let count = emit_len-take cap row in
    let head : List ℕ = line ++ (b'[' ∷ []) in
    let size = length-append line (b'[' ∷ []) in
    let size' = length-append head (spaced printed) in
    (
      line ++ sample_column printed,
      texts,
      rw
          (
            write_list-flatten room
                (columns_writes (tool_columns role cap row) ++ (some (codes "[") ∷ [])) head []
                (flatten-append (columns_writes (tool_columns role cap row)) _ line (b'[' ∷ [])
                  ts.text refl)
                (omega (arith, size, ts.short)),
            write_body-room room (room - 2) printed head (omega arith)
                (omega (arith, size, ts.short, count)),
          )
          (if-true {b = leb (length (head ++ spaced printed) + 2) room} _ _
              (le-leb _ _ (omega (arith, size, size', ts.short, count, spaced-short printed)))
            ∙ ap some (simp append_assoc)),
      ts.splits (sample_column printed) (
        omega arith,
        All-append _ (spaced printed) (b']' ∷ 10 ∷ []) (spaced-NoComma printed) (omega arith),
      ),
      ts.shows,
    )
  where
    le-leb : (a b : ℕ) → a ≤ b → leb a b ≡ true
    le-leb a b h = ground arith

ShowAll-length :
    (cs : List Column) (texts : List (List ℕ)) → ShowAll cs texts → length texts ≡ length cs
ShowAll-length [] [] h = refl
ShowAll-length [] (s ∷ ss) h = absurd h
ShowAll-length (c ∷ cs) [] h = absurd h
ShowAll-length (c ∷ cs) (s ∷ ss) h = ap suc (ShowAll-length cs ss h.1)

-- If the numbers of the row are below 2^32, the samples shown are `i8`s, and the buffer has room
-- for its worst case, the ESP32-CSI-Tool formatter does not index out of bounds, and its line
-- splits at the commas into 25 texts and the bracketed samples: under each name of the header
-- line, which splits into the same 25 names and the samples', stands the row's value of that
-- name, 0 for what only a classic chip reports, and as count the number of samples shown, all of
-- them or as many as the cap allows; and the texts in the brackets, each with a space behind it,
-- read back as those samples.
pub format_csi_tool_into_lem :
    (room : ℕ) (role : Role) (cap : ℕ) (row : TextRow)
    → All IsColumn (header_columns role cap row)
    → All IsI8 (shown cap row)
    → tool_room role cap row ≤ room
    → (line : List ℕ) × (texts : List (List ℕ)) × (samples : List (List ℕ)) × (format_csi_tool_into
          room role cap row
        ≡ some line)
      × (split line ≡ texts ++ (bracketed samples ∷ []))
      × (split esp_csi_tool_header
          ≡ map name_text header_names ++ ((codes "CSI_DATA" ++ (10 ∷ [])) ∷ []))
      × (length texts ≡ 25)
      × ShowAll (header_columns role cap row) texts
      × ReadBack (shown cap row) samples
format_csi_tool_into_lem room role cap row ok bytes fits =
    let (samples, column, back) = sample_texts_read (shown cap row) bytes in
    let same_samples : take (emit_len cap row) row.samples ≡ shown cap row =
      take-emit_len cap row in
    let count : emit_len cap row ≡ length (shown cap row) =
      sym (emit_len-take cap row) ∙ ap length same_samples in
    let same : tool_columns role cap row ≡ header_columns role cap row =
      tool_columns-header_columns role cap row row.by_chip refl count in
    let (line, texts, run, parts, shows) =
      line_shows room role cap row (subst (All IsColumn) (sym same) ok)
        (omega (arith, ap widths same, count, fits)) in
    let named : ShowAll (header_columns role cap row) texts =
      subst (λ cs. ShowAll cs texts) same shows in
    (
      line,
      texts,
      samples,
      run,
      parts
          ∙ ap (λ vs. texts ++ (sample_column vs ∷ [])) same_samples
          ∙ ap (λ s. texts ++ (s ∷ [])) column,
      split-esp_csi_tool_header,
      ShowAll-length (header_columns role cap row) texts named,
      named,
      back,
    )
