-- ===== src/Line/Tests.antt =====
-- Examples on the lines.
use esp_csi_rs.Base.{
  ℕ, ◌^◌, ◌==◌, ltb, Bool, true, false, ◌<◌, ◌≤◌, ◌≡◌, refl, some, List, [], ◌∷◌, ◌++◌, All, arith,
  length, map, if◌then◌else◌, leb,
}
use esp_csi_rs.Base.Text.{codes}
use esp_csi_rs.Config.{Build}
use esp_csi_rs.Row.{TextRow, text_row}
use esp_csi_rs.Packet.{csi_data}
use esp_csi_rs.Samples.{packet}
use esp_csi_rs.Line.{
  Role, role_text, Column, esp_csi_tool_header, format_array_list_into, format_csi_tool_into,
}
use esp_csi_rs.Line.Array.{array_line, array_room, format_array_list_into_lem}
use esp_csi_rs.Base.Int.{IsI8}
use esp_csi_rs.Line.Bracketed.{ReadBack, bracketed}
use esp_csi_rs.Line.Names.{header_columns, header_names, name_text, shown}
use esp_csi_rs.Line.Split.{NoComma, split}
use esp_csi_rs.Line.Texts.{IsColumn, ShowAll}
use esp_csi_rs.Line.Columns.{format_csi_tool_into_lem, tool_room}

abbrev measured_row : TextRow
measured_row = text_row Build.classic (packet 3)

abbrev columns : List Column
columns = header_columns Role.sta 64 measured_row

format_array_list_into_lem_example :
    format_array_list_into 3328 measured_row
    ≡ some (if leb (array_room measured_row) 3328 then array_line measured_row else [])
format_array_list_into_lem_example = format_array_list_into_lem 3328 measured_row

abbrev has_no_comma : List ℕ → Bool
has_no_comma [] = true
has_no_comma (c ∷ s) = if c == b',' then false else has_no_comma s

free : (s : List ℕ) → has_no_comma s ≡ true → NoComma s
free [] e = tt
free (c ∷ s) e = (λ (x : c ≡ b','). ground (arith, e, x), free s (ground (arith, e)))

small : (n : ℕ) → ltb n (2 ^ 32) ≡ true → n < 2 ^ 32
small n e = ground (arith, e)

columns-AreColumns : All IsColumn columns
unfolding text_row csi_data
columns-AreColumns = (
  free (codes "CSI_DATA") refl,
  (
    free (role_text Role.sta) refl,
    (
      tt,
      (
        small _ refl,
        (
          small _ refl,
          (
            small _ refl,
            (
              small _ refl,
              (
                small _ refl,
                (
                  small _ refl,
                  (
                    small _ refl,
                    (
                      small _ refl,
                      (
                        small _ refl,
                        (
                          small _ refl,
                          (
                            small _ refl,
                            (
                              small _ refl,
                              (
                                small _ refl,
                                (
                                  small _ refl,
                                  (
                                    small _ refl,
                                    (
                                      small _ refl,
                                      (
                                        small _ refl,
                                        (
                                          small _ refl,
                                          (
                                            small _ refl,
                                            (small _ refl, (small _ refl, (small _ refl, tt))),
                                          ),
                                        ),
                                      ),
                                    ),
                                  ),
                                ),
                              ),
                            ),
                          ),
                        ),
                      ),
                    ),
                  ),
                ),
              ),
            ),
          ),
        ),
      ),
    ),
  ),
)

below : (a b : ℕ) → leb a b ≡ true → a ≤ b
below a b e = ground (arith, e)

fits : tool_room Role.sta 64 measured_row ≤ 3328
unfolding text_row csi_data
fits = below (tool_room Role.sta 64 measured_row) 3328 refl

bytes : All IsI8 (shown 64 measured_row)
unfolding text_row csi_data
bytes = omega arith

format_csi_tool_into_lem_example :
    (line : List ℕ) × (texts : List (List ℕ)) × (samples : List (List ℕ)) × (format_csi_tool_into
        3328 Role.sta 64 measured_row
      ≡ some line)
    × (split line ≡ texts ++ (bracketed samples ∷ []))
    × (split esp_csi_tool_header
        ≡ map name_text header_names ++ ((codes "CSI_DATA" ++ (10 ∷ [])) ∷ []))
    × (length texts ≡ 25)
    × ShowAll columns texts
    × ReadBack (shown 64 measured_row) samples
format_csi_tool_into_lem_example =
    format_csi_tool_into_lem 3328 Role.sta 64 measured_row columns-AreColumns bytes fits
