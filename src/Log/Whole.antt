-- ===== src/Log/Whole.antt =====
-- The fill-and-flush writer of `write_text_packet_async`, on a console that takes all bytes.
use esp_csi_rs.Base.{
  ℕ, ◌+◌, ◌≤◌, ◌≡◌, refl, ap, ◌∙◌, Bool, true, false, List, [], ◌∷◌, ◌++◌, length, append_nil,
  if◌then◌else◌, ltb, arith,
}
use mathlib.Core.List.{append_assoc}
use esp_csi_rs.Base.Text.{codes}
use esp_csi_rs.Base.Int.{ℤ}
use esp_csi_rs.Decimal.{i8_digits}
use esp_csi_rs.Row.{TextRow}
use esp_csi_rs.Line.{write_calls}
use esp_csi_rs.Line.Calls.{concat, concat_calls, write_calls-room}
use esp_csi_rs.Log.Text.{
  Console, and_write, finish_text, line_end, on_answers, sample_texts, stream, text_lines, write,
  write_text_packet,
}

-- The samples, with a comma and a space between them.
abbrev pub spaced_out : List ℤ → List ℕ
spaced_out [] = []
spaced_out (v ∷ []) = i8_digits v
spaced_out (v ∷ w ∷ vs) = i8_digits v ++ (codes ", " ++ spaced_out (w ∷ vs))

-- The whole record.
abbrev pub text_record : TextRow → List ℕ
text_record row =
    concat_calls (text_lines line_end row) ++ (spaced_out row.samples ++ (b']' ∷ line_end))

abbrev put : List ℕ → Console → Console
put bytes c = record { link = c.link ++ bytes; answers = [] }

write-put : (bytes : List ℕ) (c : Console) → c.answers ≡ [] → write bytes c ≡ (put bytes c, true)
unfolding write
write-put bytes c ready = ap (λ a. on_answers a bytes c.link) ready

finish_text-put :
    (held : List ℕ) (c : Console)
    → c.answers ≡ []
    → finish_text held c ≡ put (held ++ (b']' ∷ line_end)) c
finish_text-put [] c ready = ap (λ o. o.0) (write-put (b']' ∷ line_end) c ready)
finish_text-put (x ∷ held) c ready =
    ap (λ o. and_write o (λ c'. (write (b']' ∷ line_end) c').0)) (write-put (x ∷ held) c ready)
    ∙ (ap (λ o. o.0) (write-put (b']' ∷ line_end) (put (x ∷ held) c) refl)
        ∙ ap (λ l. record { link = l; answers = [] })
            (append_assoc c.link (x ∷ held) (b']' ∷ line_end)))

-- Both ways of the test lead to the same bytes.
either_way : (t : Bool) (x y z : Console) → x ≡ z → y ≡ z → (if t then x else y) ≡ z
either_way true x y z p q = p
either_way false x y z p q = q

stream-put :
    (room : ℕ) (ss : List (List ℕ)) (held : List ℕ) (c : Console)
    → c.answers ≡ []
    → stream room ss held c ≡ put (held ++ (concat ss ++ (b']' ∷ line_end))) c
unfolding stream
stream-put room [] held c ready = finish_text-put held c ready
stream-put room (s ∷ ss) held c ready =
    let rest : List ℕ = b']' ∷ line_end in
    let all : List ℕ = held ++ ((s ++ concat ss) ++ rest) in
    either_way (ltb room (length held + length s)) (and_write (write held c) (stream room ss s))
      (stream room ss (held ++ s) c) (put all c)
      (ap (λ o. and_write o (stream room ss s)) (write-put held c ready)
        ∙ (stream-put room ss s (put held c) refl
            ∙ ap (λ l. record { link = l; answers = [] }) (simp append_assoc)))
      (stream-put room ss (held ++ s) c ready ∙ ap (λ l. put l c) (simp append_assoc))

concat-sample_texts : (vs : List ℤ) → concat (sample_texts vs) ≡ spaced_out vs
concat-sample_texts [] = refl
concat-sample_texts (v ∷ []) = append_nil (i8_digits v)
concat-sample_texts (v ∷ w ∷ vs) =
    append_assoc (i8_digits v) (codes ", ") (concat (sample_texts (w ∷ vs)))
    ∙ ap (λ l. i8_digits v ++ (codes ", " ++ l)) (concat-sample_texts (w ∷ vs))

write_calls-whole :
    (room : ℕ) (calls : List (List (List ℕ)))
    → length (concat_calls calls) ≤ room
    → write_calls room calls [] ≡ concat_calls calls
write_calls-whole room calls fits = write_calls-room room calls [] (omega (arith, fits))

-- On a console that takes all bytes, if the lines of the record fit into the scratch, the async
-- text writer puts out all lines, the samples with a comma and a space between them, and the end,
-- whatever the scratch is filled and flushed in between.
pub write_text_packet_lem :
    (room : ℕ) (row : TextRow) (c : Console)
    → c.answers ≡ []
    → length (concat_calls (text_lines line_end row)) ≤ room
    → write_text_packet room row c ≡ record { link = c.link ++ text_record row; answers = [] }
unfolding write_text_packet
write_text_packet_lem room row c ready fits =
    let head : List ℕ = concat_calls (text_lines line_end row) in
    ap (λ h. and_write (write h c) (stream room (sample_texts row.samples) []))
      (write_calls-whole room (text_lines line_end row) fits)
    ∙ (ap (λ o. and_write o (stream room (sample_texts row.samples) [])) (write-put head c ready)
        ∙ (stream-put room (sample_texts row.samples) [] (put head c) refl
            ∙ ap (λ l. record { link = l; answers = [] })
                (append_assoc c.link head (concat (sample_texts row.samples) ++ (b']' ∷ line_end))
                  ∙ ap (λ t. c.link ++ (head ++ (t ++ (b']' ∷ line_end))))
                      (concat-sample_texts row.samples))))
