-- ===== src/Line/Tool.antt =====
-- The ESP32-CSI-Tool line: its columns, read back.
use esp_csi_rs.Base.{
  ℕ, ◌+◌, ◌≤◌, ◌≡◌, inl, inr, refl, sym, ap, ◌∙◌, true, Option, none, some, List, [], ◌∷◌, ◌++◌,
  leb, if-true, Option-cases, length, length-append, append_nil, All, arith,
}
use mathlib.Core.List.{append_assoc}
use esp_csi_rs.Decimal.{write_slice}
use esp_csi_rs.Line.{Column, and_then, column_writes, columns_writes, write_list}
use esp_csi_rs.Line.Split.{NoComma, split, split-comma, split-last}
use esp_csi_rs.Line.Texts.{IsColumn, ShowAll, column-IsText, flatten, width}

pub flatten-append :
    (ws vs : List (Option (List ℕ))) (s t : List ℕ)
    → flatten ws ≡ some s
    → flatten vs ≡ some t
    → flatten (ws ++ vs) ≡ some (s ++ t)
flatten-append [] vs s t e e' = cc
flatten-append (none ∷ ws) vs s t e e' = cc
flatten-append (some x ∷ ws) vs s t e e' = elim (Option-cases (flatten ws)) [
  | inl n ↦ let bad : flatten (some x ∷ ws) ≡ none = rw n refl in cc
  | inr (u, made) ↦
      let whole : flatten (some x ∷ ws) ≡ some (x ++ u) = rw made refl in
      let same : x ++ u ≡ s = cc in
      rw (flatten-append ws vs u t made e')
        (ap some (sym (append_assoc x u t) ∙ ap (λ l. l ++ t) same))
]

pub write_list-flatten :
    (room : ℕ) (ws : List (Option (List ℕ))) (s out : List ℕ)
    → flatten ws ≡ some s
    → length out + length s ≤ room
    → write_list room ws out ≡ some (out ++ s)
unfolding write_list write_slice
write_list-flatten room [] s out e fits =
    let empty : [] ≡ s = cc in rw⁻¹ empty (ap some (sym (append_nil out)))
write_list-flatten room (none ∷ ws) s out e fits = cc
write_list-flatten room (some x ∷ ws) s out e fits = elim (Option-cases (flatten ws)) [
  | inl n ↦ let bad : flatten (some x ∷ ws) ≡ none = rw n refl in cc
  | inr (u, made) ↦
      let whole : flatten (some x ∷ ws) ≡ some (x ++ u) = rw made refl in
      let same : x ++ u ≡ s = cc in
      let size : length s ≡ length x + length u = sym (ap length same) ∙ length-append x u in
      let size' = length-append out x in
      ap (λ o. and_then o (write_list room ws))
        (if-true {b = leb (length out + length x) room} _ _ (le-leb _ _ (omega (arith, size))))
      ∙ (write_list-flatten room ws u (out ++ x) made (omega (arith, size, size'))
          ∙ ap some (append_assoc out x u ∙ ap (λ l. out ++ l) same))
]
  where
    le-leb : (a b : ℕ) → a ≤ b → leb a b ≡ true
    le-leb a b h = ground arith

abbrev pub widths : List Column → ℕ
widths [] = 0
widths (c ∷ cs) = width c + 1 + widths cs

-- The texts of columns, and the line that they make.
pub record AreTexts (cs : List Column) (ss : List (List ℕ)) (line : List ℕ) : Type 0 where
  pub text : flatten (columns_writes cs) ≡ some line
  pub shows : ShowAll cs ss
  pub splits : (last : List ℕ) → NoComma last → split (line ++ last) ≡ ss ++ (last ∷ [])
  pub short : length line ≤ widths cs

pub columns_texts :
    (cs : List Column)
    → All IsColumn cs
    → (ss : List (List ℕ)) × (line : List ℕ) × AreTexts cs ss line
columns_texts [] ok =
    ([], [], record { text = refl; shows = tt; splits = split-last; short = omega arith })
columns_texts (c ∷ cs) ok =
    let (s, t) = column-IsText c ok.0 in
    let (ss, line, ts) = columns_texts cs ok.1 in
    (
      s ∷ ss,
      s ++ (b',' ∷ line),
      record {
        text = flatten-append (column_writes c) _ s (b',' ∷ line) t.text (rw ts.text refl);
        shows = (t.shows, ts.shows);
        splits = λ last free.
            ap split (append_assoc s (b',' ∷ line) last)
            ∙ (split-comma s (line ++ last) t.free ∙ ap (λ l. s ∷ l) (ts.splits last free));
        short = omega (arith, t.short, ts.short, length-append s (b',' ∷ line));
      },
    )
