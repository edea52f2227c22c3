-- ===== src/Line/Array.antt =====
-- The array-list line: complete or refused, at every size of the buffer.
use esp_csi_rs.Base.{
  ℕ, zero, suc, ◌+◌, ◌*◌, ◌/◌, ◌%◌, ◌≤◌, ◌<◌, ◌≡◌, inl, inr, sym, ap, ◌∙◌, true, false, some, List,
  [], ◌∷◌, ◌++◌, ltb, leb, leb→le, if◌then◌else◌, if-true, if-false, Bool-cases, length,
  length-append, append_nil, take_full, unwrap_or, All, arith,
}
use mathlib.Core.List.{append_assoc}
use esp_csi_rs.Base.Text.{codes}
use esp_csi_rs.Base.Int.{ℤ}
use esp_csi_rs.Mac.{Mac}
use esp_csi_rs.Decimal.{digit_loop, i8_digits, short_digits, u32_digits, write_i8_sep, write_slice}
use esp_csi_rs.Row.{AxRow, ChipRow, TextRow}
use esp_csi_rs.Line.{
  and_then, array_header, array_tail, ax_fields, chip_fields, display_u32, field,
  format_array_list_into, rewind, signed_field, tail_reserve, write_calls, write_samples,
  write_tail,
}
use esp_csi_rs.Line.Calls.{AreShort, Left, concat_calls, write_calls-Left, write_calls-room}

-- The samples with commas between them.
abbrev pub join_samples : List ℤ → List ℕ
join_samples [] = []
join_samples (v ∷ []) = i8_digits v
join_samples (v ∷ w ∷ vs) = i8_digits v ++ (b',' ∷ join_samples (w ∷ vs))

-- The whole line.
abbrev pub array_line : TextRow → List ℕ
array_line row =
    (concat_calls (array_header row) ++ join_samples row.samples)
    ++ concat_calls (array_tail row.mac)

-- The decimals of the header.
digit_loop-short :
    (cells n : ℕ) (out : List ℕ)
    → length (unwrap_or (digit_loop cells n out) []) ≤ length out + cells
unfolding digit_loop
digit_loop-short zero n out = ground arith
digit_loop-short (suc cells) n out =
    ground (arith, digit_loop-short cells (n / 10) ((b'0' + n % 10) ∷ out))

display_u32-short : (n : ℕ) → length (display_u32 n) ≤ 10
unfolding u32_digits
display_u32-short n = ground (arith, digit_loop-short 10 n [])

field-short : (n : ℕ) → All (λ (s : List ℕ). length s ≤ 12) (field n)
field-short n = (omega (arith, display_u32-short n), (omega arith, tt))

signed_field-short : (z : ℤ) → All (λ (s : List ℕ). length s ≤ 12) (signed_field z)
signed_field-short (ℤ.pos n) = field-short n
signed_field-short (ℤ.negsuc n) = (omega arith, field-short (n + 1))

ax_fields-AreShort :
    (a : AxRow) (channel : ℕ) (rest : List (List (List ℕ)))
    → AreShort rest
    → AreShort (ax_fields a channel rest)
ax_fields-AreShort a channel rest short = (
  field-short a.cur_bb_format,
  (
    field-short a.rx_channel_estimate_info_vld,
    (
      field-short a.rx_channel_estimate_len,
      (
        field-short a.second,
        (
          field-short channel,
          (
            field-short a.is_group,
            (
              field-short a.rxend_state,
              (field-short a.rxmatch3, (field-short a.rxmatch2, (field-short a.rxmatch1, short))),
            ),
          ),
        ),
      ),
    ),
  ),
)

chip_fields-AreShort :
    (c : ChipRow) (channel : ℕ) (rest : List (List (List ℕ)))
    → AreShort rest
    → AreShort (chip_fields c channel rest)
chip_fields-AreShort (ChipRow.classic c) channel rest short = (
  field-short c.secondary_channel,
  (
    field-short c.sgi,
    (
      field-short c.antenna,
      (
        field-short c.ampdu_cnt,
        (
          field-short c.sig_mode,
          (
            field-short c.mcs,
            (
              field-short c.bandwidth,
              (
                field-short c.smoothing,
                (
                  field-short c.not_sounding,
                  (
                    field-short c.aggregation,
                    (field-short c.stbc, (field-short c.fec_coding, short)),
                  ),
                ),
              ),
            ),
          ),
        ),
      ),
    ),
  ),
)
chip_fields-AreShort (ChipRow.ax6 a sigb single rxmatch0) channel rest short = (
  field-short a.dump_len,
  (
    field-short sigb,
    (
      field-short single,
      ax_fields-AreShort a channel (field rxmatch0 ∷ rest) (field-short rxmatch0, short),
    ),
  ),
)
chip_fields-AreShort (ChipRow.ax5 a) channel rest short =
    (field-short a.dump_len, ax_fields-AreShort a channel rest short)

array_header-AreShort : (row : TextRow) → AreShort (array_header row)
array_header-AreShort row = (
  (omega arith, field-short row.sequence_number),
  (
    signed_field-short row.rssi,
    (
      field-short row.rate,
      (
        signed_field-short row.noise_floor,
        (
          field-short row.channel,
          (
            field-short row.timestamp,
            (
              field-short row.sig_len,
              (
                field-short row.rx_state,
                chip_fields-AreShort row.by_chip row.channel
                    (field row.sig_len ∷ field row.csi_data_len ∷ (codes "[" ∷ []) ∷ [])
                    (
                      field-short row.sig_len,
                      (field-short row.csi_data_len, ((omega arith, tt), tt)),
                    ),
              ),
            ),
          ),
        ),
      ),
    ),
  ),
)

short_digits-short : (n : ℕ) → length (short_digits n) ≤ 3
short_digits-short n = ground arith

pub i8_digits-short : (z : ℤ) → length (i8_digits z) ≤ 4
i8_digits-short (ℤ.pos n) = omega (arith, short_digits-short n)
i8_digits-short (ℤ.negsuc n) = omega (arith, short_digits-short (n + 1))

pub write_i8_sep-room :
    (room : ℕ) (z : ℤ) (sep : ℕ) (out : List ℕ)
    → length out + 5 ≤ room
    → write_i8_sep room z sep out ≡ some (out ++ (i8_digits z ++ (sep ∷ [])))
unfolding write_i8_sep write_slice
write_i8_sep-room room z sep out fits =
    if-true {b = leb (length out + length (i8_digits z ++ (sep ∷ []))) room} _ _
      (ground (arith, length-append (i8_digits z) (sep ∷ []), i8_digits-short z))

rewind_lem : (out s : List ℕ) (sep : ℕ) → rewind (out ++ (s ++ (sep ∷ []))) ≡ some (out ++ s)
rewind_lem out s sep =
    let shape = append_assoc out s (sep ∷ []) in
    let size = length-append (out ++ s) (sep ∷ []) in
    rw⁻¹ shape (ap some (take_full _ (out ++ s) (sep ∷ []) (omega (arith, size))))

write_samples-room :
    (room : ℕ) (vs : List ℤ) (out : List ℕ)
    → length out + length vs * 5 ≤ room
    → write_samples room vs out ≡ some (out ++ join_samples vs)
unfolding write_samples
write_samples-room room [] out fits = ap some (sym (append_nil out))
write_samples-room room (v ∷ []) out fits =
    rw (write_i8_sep-room room v b',' out (omega arith)) (rewind_lem out (i8_digits v) b',')
write_samples-room room (v ∷ w ∷ vs) out fits =
    let next : List ℕ = out ++ (i8_digits v ++ (b',' ∷ [])) in
    let size = length-append out (i8_digits v ++ (b',' ∷ [])) in
    let size' = length-append (i8_digits v) (b',' ∷ []) in
    rw (write_i8_sep-room room v b',' out (omega arith)) (
      write_samples-room room (w ∷ vs) next (omega (arith, size, size', i8_digits-short v))
      ∙ ap some (simp append_assoc))

join_samples-short : (vs : List ℤ) → length (join_samples vs) ≤ length vs * 5
join_samples-short [] = omega arith
join_samples-short (v ∷ []) = omega (arith, i8_digits-short v)
join_samples-short (v ∷ w ∷ vs) = omega (
  arith,
  length-append (i8_digits v) (b',' ∷ join_samples (w ∷ vs)),
  i8_digits-short v,
  join_samples-short (w ∷ vs),
)

write_tail-room :
    (room : ℕ) (mac : Mac) (out : List ℕ)
    → length out + tail_reserve ≤ room
    → write_tail room mac out ≡ some (out ++ concat_calls (array_tail mac))
write_tail-room room mac out fits = ap some (write_calls-room room (array_tail mac) out fits)

-- The room that the check asks for.
abbrev pub array_room : TextRow → ℕ
array_room row = length (concat_calls (array_header row)) + length row.samples * 5 + tail_reserve

whole_line :
    (room : ℕ) (row : TextRow)
    → array_room row ≤ room
    → and_then
        (write_samples room row.samples (concat_calls (array_header row)))
        (write_tail room row.mac)
      ≡ some (array_line row)
whole_line room row fits =
    let header : List ℕ = concat_calls (array_header row) in
    let size = length-append header (join_samples row.samples) in
    rw (write_samples-room room row.samples header (omega arith)) (
      write_tail-room room row.mac (header ++ join_samples row.samples)
        (omega (arith, size, join_samples-short row.samples)))

fits-ltb : (a b : ℕ) → leb a b ≡ true → ltb b a ≡ false
fits-ltb a b h = ground arith

full-ltb : (a b : ℕ) → leb a b ≡ false → ltb b a ≡ true
full-ltb a b h = ground arith

lt-ltb : (a b : ℕ) → a < b → ltb a b ≡ true
lt-ltb a b h = ground arith

lt-leb : (a b : ℕ) → a < b → leb b a ≡ false
lt-leb a b h = ground arith

-- At every buffer size the array-list formatter does not index out of bounds, and gives the
-- complete line or, where the line with five bytes for each sample does not fit, nothing.
pub format_array_list_into_lem :
    (room : ℕ) (row : TextRow)
    → format_array_list_into room row
      ≡ some (if leb (array_room row) room then array_line row else [])
unfolding format_array_list_into
format_array_list_into_lem room row =
    let w : Left room [] (concat_calls (array_header row))
        (write_calls room (array_header row) []) =
      write_calls-Left room (array_header row) [] (array_header-AreShort row) in
    elim w.whole_or_full [
      | inl whole ↦ rw whole (elim (Bool-cases (leb (array_room row) room)) [
        | inl fits ↦
            if-false _ _ (fits-ltb (array_room row) room fits)
            ∙ (whole_line room row (leb→le (array_room row) room fits)
                ∙ ap some (sym (if-true _ _ fits)))
        | inr full ↦
            if-true _ _ (full-ltb (array_room row) room full) ∙ ap some (sym (if-false _ _ full))
      ])
      | inr full ↦
          if-true _ _ (lt-ltb room _ (omega (arith, full)))
          ∙ ap some
              (sym (if-false _ _ (lt-leb room (array_room row) (omega (arith, full, w.within)))))
    ]
