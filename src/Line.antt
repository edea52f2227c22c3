-- ===== src/Line.antt =====
-- The two one-line formats of src/lib/logging/logging.rs: `format_array_list_into` and
-- `format_csi_tool_into`, over a buffer of `room` bytes. `none` is the panic of an index out of
-- bounds; core::fmt's `{}` is the decimal and `{:02x}` two lower-case digits.
pub mod Calls
pub mod Array
pub mod Texts
pub mod Tool
pub mod Split
pub mod Names
pub mod Bracketed
pub mod Columns
mod Tests
use esp_csi_rs.Base.{
  ℕ, zero, suc, ◌+◌, ◌-◌, ◌*◌, ◌/◌, ◌%◌, Bool, true, false, Option, none, some, List, [], ◌∷◌, ◌++◌,
  min, ltb, leb, ◌==◌, if◌then◌else◌, length, get_or, take, unwrap_or,
}
use esp_csi_rs.Base.Text.{codes}
use esp_csi_rs.Base.Int.{ℤ}
use esp_csi_rs.Mac.{Mac}
use esp_csi_rs.Decimal.{hex_digits, i32_digits, pad6_digits, u32_digits, write_i8_sep, write_slice}
use esp_csi_rs.Row.{AxRow, ChipRow, ClassicRow, TextRow}

-- `SliceWriter::write_str`, and a `write!` of several pieces, which stops at the first that fails.
unfoldable pub write_fmt : ℕ → List (List ℕ) → List ℕ → List ℕ
write_fmt room [] out = out
write_fmt room (s ∷ pieces) out =
    let rest = write_fmt room pieces (out ++ s) in
    if ltb room (length out + length s) then out else rest

-- Several `write!`s, whose errors are ignored.
unfoldable pub write_calls : ℕ → List (List (List ℕ)) → List ℕ → List ℕ
unfolding write_fmt
write_calls room [] out = out
write_calls room (call ∷ calls) out = write_calls room calls (write_fmt room call out)

abbrev pub display_u32 : ℕ → List ℕ
display_u32 n = unwrap_or (u32_digits n) []

-- `field!`.
abbrev pub field : ℕ → List (List ℕ)
field n = display_u32 n ∷ codes "," ∷ []

abbrev pub signed_field : ℤ → List (List ℕ)
signed_field (ℤ.pos n) = field n
signed_field (ℤ.negsuc n) = codes "-" ∷ field (n + 1)

abbrev pub ax_fields : AxRow → ℕ → List (List (List ℕ)) → List (List (List ℕ))
ax_fields a channel last =
    field a.cur_bb_format
    ∷ field a.rx_channel_estimate_info_vld
    ∷ field a.rx_channel_estimate_len
    ∷ field a.second
    ∷ field channel
    ∷ field a.is_group
    ∷ field a.rxend_state
    ∷ field a.rxmatch3
    ∷ field a.rxmatch2
    ∷ field a.rxmatch1
    ∷ last

abbrev pub chip_fields : ChipRow → ℕ → List (List (List ℕ)) → List (List (List ℕ))
chip_fields (ChipRow.classic c) channel rest =
    field c.secondary_channel
    ∷ field c.sgi
    ∷ field c.antenna
    ∷ field c.ampdu_cnt
    ∷ field c.sig_mode
    ∷ field c.mcs
    ∷ field c.bandwidth
    ∷ field c.smoothing
    ∷ field c.not_sounding
    ∷ field c.aggregation
    ∷ field c.stbc
    ∷ field c.fec_coding
    ∷ rest
chip_fields (ChipRow.ax6 a sigb_len cur_single_mpdu rxmatch0) channel rest =
    field a.dump_len
    ∷ field sigb_len
    ∷ field cur_single_mpdu
    ∷ ax_fields a channel (field rxmatch0 ∷ rest)
chip_fields (ChipRow.ax5 a) channel rest = field a.dump_len ∷ ax_fields a channel rest

-- The `write!`s before the samples.
abbrev pub array_header : TextRow → List (List (List ℕ))
array_header row =
    (codes "[" ∷ field row.sequence_number)
    ∷ signed_field row.rssi
    ∷ field row.rate
    ∷ signed_field row.noise_floor
    ∷ field row.channel
    ∷ field row.timestamp
    ∷ field row.sig_len
    ∷ field row.rx_state
    ∷ chip_fields row.by_chip row.channel
        (field row.sig_len ∷ field row.csi_data_len ∷ (codes "[" ∷ []) ∷ [])

abbrev pub lower_digit : ℕ → ℕ
lower_digit n = get_or (codes "0123456789abcdef") n 0

abbrev pub mac_call : List ℕ → ℕ → List (List ℕ)
mac_call sep b = sep ∷ (lower_digit (b / 16 % 16) ∷ lower_digit (b % 16) ∷ []) ∷ []

-- The `write!`s behind the samples.
abbrev pub array_tail : Mac → List (List (List ℕ))
array_tail m =
    (codes "]," ∷ [])
    ∷ mac_call [] m.b0
    ∷ mac_call (codes ":") m.b1
    ∷ mac_call (codes ":") m.b2
    ∷ mac_call (codes ":") m.b3
    ∷ mac_call (codes ":") m.b4
    ∷ mac_call (codes ":") m.b5
    ∷ ((b']' ∷ 13 ∷ 10 ∷ []) ∷ [])
    ∷ []

abbrev pub tail_reserve : ℕ
tail_reserve = 2 + 17 + 3

abbrev pub and_then : Option (List ℕ) → (List ℕ → Option (List ℕ)) → Option (List ℕ)
and_then none f = none
and_then (some out) f = f out

-- `w.pos -= 1`.
abbrev pub rewind : List ℕ → Option (List ℕ)
rewind out = some (take (length out - 1) out)

-- The loop over the samples; the last one's separator is taken back.
unfoldable pub write_samples : ℕ → List ℤ → List ℕ → Option (List ℕ)
unfolding write_i8_sep
write_samples room [] out = some out
write_samples room (v ∷ []) out = and_then (write_i8_sep room v b',' out) rewind
write_samples room (v ∷ w ∷ vs) out =
    and_then (write_i8_sep room v b',' out) (write_samples room (w ∷ vs))

abbrev pub write_tail : ℕ → Mac → List ℕ → Option (List ℕ)
write_tail room mac out = some (write_calls room (array_tail mac) out)

-- The bytes written, of which there are none for a line that is refused.
unfoldable pub format_array_list_into : ℕ → TextRow → Option (List ℕ)
unfolding write_calls write_samples
format_array_list_into room row =
    let out = write_calls room (array_header row) [] in
    if ltb room (length out + length row.samples * 5 + tail_reserve)
    then some []
    else and_then (write_samples room row.samples out) (write_tail room row.mac)

-- `Role`.
pub data Role : Type 0 where
  sta ap passive : Role

-- `Role::as_str`.
abbrev pub role_text : Role → List ℕ
role_text Role.sta = codes "STA"
role_text Role.ap = codes "AP"
role_text Role.passive = codes "PASSIVE"

-- `ESP_CSI_TOOL_HEADER`, which goes before the first line.
abbrev pub esp_csi_tool_header : List ℕ
esp_csi_tool_header =
    codes
      "type,role,mac,rssi,rate,sig_mode,mcs,bandwidth,smoothing,not_sounding,aggregation,stbc,fec_coding,sgi,noise_floor,ampdu_cnt,channel,secondary_channel,local_timestamp,ant,sig_len,rx_state,real_time_set,real_timestamp,len,CSI_DATA"
    ++ (10 ∷ [])

-- A column of the ESP32-CSI-Tool line: a constant, a `u32`, an `i32`, an address, or a time in
-- seconds and microseconds.
pub data Column : Type 0 where
  constant : List ℕ → Column
  number : ℕ → Column
  integer : ℤ → Column
  address : Mac → Column
  seconds : ℕ → Column

-- The writes of a column, in order; `none` is the panic of `tmp`.
abbrev pub column_writes : Column → List (Option (List ℕ))
column_writes (Column.constant s) = some s ∷ []
column_writes (Column.number n) = u32_digits n ∷ []
column_writes (Column.integer z) = i32_digits z ∷ []
column_writes (Column.address m) =
    some (hex_digits m.b0)
    ∷ some (codes ":")
    ∷ some (hex_digits m.b1)
    ∷ some (codes ":")
    ∷ some (hex_digits m.b2)
    ∷ some (codes ":")
    ∷ some (hex_digits m.b3)
    ∷ some (codes ":")
    ∷ some (hex_digits m.b4)
    ∷ some (codes ":")
    ∷ some (hex_digits m.b5)
    ∷ []
column_writes (Column.seconds t) =
    u32_digits (t / 1_000_000) ∷ some (codes ".") ∷ some (pad6_digits (t % 1_000_000)) ∷ []

unfoldable pub write_list : ℕ → List (Option (List ℕ)) → List ℕ → Option (List ℕ)
write_list room [] out = some out
write_list room (none ∷ writes) out = none
write_list room (some s ∷ writes) out = and_then (write_slice room s out) (write_list room writes)

-- Columns, each with a comma behind it.
abbrev pub columns_writes : List Column → List (Option (List ℕ))
columns_writes [] = []
columns_writes (c ∷ cs) = column_writes c ++ (some (codes ",") ∷ columns_writes cs)

abbrev pub unreported : Column
unreported = Column.constant (codes "0")

-- Columns 6 to 22.
abbrev pub chip_columns : TextRow → ChipRow → List Column → List Column
chip_columns row (ChipRow.classic c) rest =
    Column.number c.sig_mode
    ∷ Column.number c.mcs
    ∷ Column.number c.bandwidth
    ∷ Column.number c.smoothing
    ∷ Column.number c.not_sounding
    ∷ Column.number c.aggregation
    ∷ Column.number c.stbc
    ∷ Column.number c.fec_coding
    ∷ Column.number c.sgi
    ∷ Column.integer row.noise_floor
    ∷ Column.number c.ampdu_cnt
    ∷ Column.number row.channel
    ∷ Column.number c.secondary_channel
    ∷ Column.number row.timestamp
    ∷ Column.number c.antenna
    ∷ Column.number row.sig_len
    ∷ Column.number row.rx_state
    ∷ rest
chip_columns row _ rest =
    unreported
    ∷ unreported
    ∷ unreported
    ∷ unreported
    ∷ unreported
    ∷ unreported
    ∷ unreported
    ∷ unreported
    ∷ unreported
    ∷ Column.integer row.noise_floor
    ∷ unreported
    ∷ Column.number row.channel
    ∷ unreported
    ∷ Column.number row.timestamp
    ∷ unreported
    ∷ Column.number row.sig_len
    ∷ Column.number row.rx_state
    ∷ rest

-- `emit_len`, under the cap `CSI_TOOL_EMIT_CAP`.
abbrev pub emit_len : ℕ → TextRow → ℕ
emit_len cap row = if cap == 0 then length row.samples else min (length row.samples) cap

-- The 25 columns before the samples.
unfoldable pub tool_columns : Role → ℕ → TextRow → List Column
tool_columns role cap row =
    Column.constant (codes "CSI_DATA")
    ∷ Column.constant (role_text role)
    ∷ Column.address row.mac
    ∷ Column.integer row.rssi
    ∷ Column.number row.rate
    ∷ chip_columns row row.by_chip (
        Column.number (if row.date_time_set then 1 else 0)
        ∷ Column.seconds row.timestamp
        ∷ Column.number (emit_len cap row)
        ∷ [])

-- The loop over the samples, which stops where five bytes may not fit.
unfoldable pub write_body : ℕ → ℕ → List ℤ → List ℕ → Option (List ℕ)
write_body room body_cap [] out = some out
write_body room body_cap (v ∷ vs) out =
    if ltb body_cap (length out + 5)
    then some out
    else and_then (write_i8_sep room v b' ' out) (write_body room body_cap vs)

unfoldable pub format_csi_tool_into : ℕ → Role → ℕ → TextRow → Option (List ℕ)
unfolding write_list write_body write_slice
format_csi_tool_into room role cap row =
    and_then
      (and_then
        (write_list room (columns_writes (tool_columns role cap row) ++ (some (codes "[") ∷ [])) [])
        (write_body room (room - 2) (take (emit_len cap row) row.samples)))
      (write_slice room (b']' ∷ 10 ∷ []))
