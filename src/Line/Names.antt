-- ===== src/Line/Names.antt =====
-- What each column of the ESP32-CSI-Tool line is for, by the names in its header line.
use esp_csi_rs.Base.{
  ℕ, zero, suc, ◌≤◌, ◌≡◌, refl, sym, ap, ◌∙◌, List, [], ◌∷◌, ◌++◌, map, min, Bool-cases, inl, inr,
  ◌==◌, if◌then◌else◌, length, take, arith,
}
use native.Mathlib.Decide.{dec_le}
use esp_csi_rs.Base.Text.{codes}
use esp_csi_rs.Base.Int.{ℤ}
use esp_csi_rs.Row.{ChipRow, ClassicRow, TextRow}
use esp_csi_rs.Line.{Column, Role, emit_len, esp_csi_tool_header, role_text, tool_columns}
use esp_csi_rs.Line.Split.{split}

pub data Name : Type 0 where
  kind : Name
  role : Name
  mac : Name
  rssi : Name
  rate : Name
  sig_mode : Name
  mcs : Name
  bandwidth : Name
  smoothing : Name
  not_sounding : Name
  aggregation : Name
  stbc : Name
  fec_coding : Name
  sgi : Name
  noise_floor : Name
  ampdu_cnt : Name
  channel : Name
  secondary_channel : Name
  local_timestamp : Name
  ant : Name
  sig_len : Name
  rx_state : Name
  real_time_set : Name
  real_timestamp : Name
  len : Name

abbrev pub name_text : Name → List ℕ
name_text Name.kind = codes "type"
name_text Name.role = codes "role"
name_text Name.mac = codes "mac"
name_text Name.rssi = codes "rssi"
name_text Name.rate = codes "rate"
name_text Name.sig_mode = codes "sig_mode"
name_text Name.mcs = codes "mcs"
name_text Name.bandwidth = codes "bandwidth"
name_text Name.smoothing = codes "smoothing"
name_text Name.not_sounding = codes "not_sounding"
name_text Name.aggregation = codes "aggregation"
name_text Name.stbc = codes "stbc"
name_text Name.fec_coding = codes "fec_coding"
name_text Name.sgi = codes "sgi"
name_text Name.noise_floor = codes "noise_floor"
name_text Name.ampdu_cnt = codes "ampdu_cnt"
name_text Name.channel = codes "channel"
name_text Name.secondary_channel = codes "secondary_channel"
name_text Name.local_timestamp = codes "local_timestamp"
name_text Name.ant = codes "ant"
name_text Name.sig_len = codes "sig_len"
name_text Name.rx_state = codes "rx_state"
name_text Name.real_time_set = codes "real_time_set"
name_text Name.real_timestamp = codes "real_timestamp"
name_text Name.len = codes "len"

-- The columns before the samples, in the order of the header line.
abbrev pub header_names : List Name
header_names =
    Name.kind ∷ Name.role ∷ Name.mac ∷ Name.rssi ∷ Name.rate ∷ Name.sig_mode ∷ Name.mcs
    ∷ Name.bandwidth ∷ Name.smoothing ∷ Name.not_sounding ∷ Name.aggregation ∷ Name.stbc
    ∷ Name.fec_coding ∷ Name.sgi ∷ Name.noise_floor ∷ Name.ampdu_cnt ∷ Name.channel
    ∷ Name.secondary_channel ∷ Name.local_timestamp ∷ Name.ant ∷ Name.sig_len ∷ Name.rx_state
    ∷ Name.real_time_set ∷ Name.real_timestamp ∷ Name.len ∷ []

-- A cap of 0 shows all samples.
abbrev pub shown : ℕ → TextRow → List ℤ
shown cap row = if cap == 0 then row.samples else take cap row.samples

-- What only a classic chip reports; the others print a zero.
abbrev pub reported : (ClassicRow → ℕ) → ChipRow → Column
reported f (ChipRow.classic c) = Column.number (f c)
reported f (ChipRow.ax6 a sigb_len cur_single_mpdu rxmatch0) = Column.constant (codes "0")
reported f (ChipRow.ax5 a) = Column.constant (codes "0")

-- What the column says in the line of a row.
abbrev pub value_of : Role → ℕ → TextRow → Name → Column
value_of own cap row Name.kind = Column.constant (codes "CSI_DATA")
value_of own cap row Name.role = Column.constant (role_text own)
value_of own cap row Name.mac = Column.address row.mac
value_of own cap row Name.rssi = Column.integer row.rssi
value_of own cap row Name.rate = Column.number row.rate
value_of own cap row Name.sig_mode = reported (λ c. c.sig_mode) row.by_chip
value_of own cap row Name.mcs = reported (λ c. c.mcs) row.by_chip
value_of own cap row Name.bandwidth = reported (λ c. c.bandwidth) row.by_chip
value_of own cap row Name.smoothing = reported (λ c. c.smoothing) row.by_chip
value_of own cap row Name.not_sounding = reported (λ c. c.not_sounding) row.by_chip
value_of own cap row Name.aggregation = reported (λ c. c.aggregation) row.by_chip
value_of own cap row Name.stbc = reported (λ c. c.stbc) row.by_chip
value_of own cap row Name.fec_coding = reported (λ c. c.fec_coding) row.by_chip
value_of own cap row Name.sgi = reported (λ c. c.sgi) row.by_chip
value_of own cap row Name.noise_floor = Column.integer row.noise_floor
value_of own cap row Name.ampdu_cnt = reported (λ c. c.ampdu_cnt) row.by_chip
value_of own cap row Name.channel = Column.number row.channel
value_of own cap row Name.secondary_channel = reported (λ c. c.secondary_channel) row.by_chip
value_of own cap row Name.local_timestamp = Column.number row.timestamp
value_of own cap row Name.ant = reported (λ c. c.antenna) row.by_chip
value_of own cap row Name.sig_len = Column.number row.sig_len
value_of own cap row Name.rx_state = Column.number row.rx_state
value_of own cap row Name.real_time_set = Column.number (if row.date_time_set then 1 else 0)
value_of own cap row Name.real_timestamp = Column.seconds row.timestamp
value_of own cap row Name.len = Column.number (length (shown cap row))

abbrev pub header_columns : Role → ℕ → TextRow → List Column
header_columns own cap row = map (value_of own cap row) header_names

-- The header line names the columns in that order, and the samples last.
pub split-esp_csi_tool_header :
    split esp_csi_tool_header ≡ map name_text header_names ++ ((codes "CSI_DATA" ++ (10 ∷ [])) ∷ [])
unfolding split
split-esp_csi_tool_header = refl

take_all {ℓ} : {A : Type ℓ} (n : ℕ) (xs : List A) → length xs ≤ n → take n xs ≡ xs
take_all zero [] h = refl
take_all (suc n) [] h = refl
take_all zero (x ∷ xs) h = absurd (omega arith)
take_all (suc n) (x ∷ xs) h = ap (λ ys. x ∷ ys) (take_all n xs (omega arith))

take-min {ℓ} : {A : Type ℓ} (n : ℕ) (xs : List A) → take (min (length xs) n) xs ≡ take n xs
take-min n xs = elim (dec_le (length xs) n) [
  | yes h ↦
      let e : min (length xs) n ≡ length xs = ground (arith, h) in
      ap (λ k. take k xs) e ∙ take_all (length xs) xs (omega arith) ∙ sym (take_all n xs h)
  | no h ↦ let e : min (length xs) n ≡ n = ground (arith, h) in ap (λ k. take k xs) e
]

-- The samples that the code prints.
pub take-emit_len : (cap : ℕ) (row : TextRow) → take (emit_len cap row) row.samples ≡ shown cap row
take-emit_len cap row = elim (Bool-cases (cap == 0)) [
  | inl e ↦ rw e (take_all (length row.samples) row.samples (omega arith))
  | inr e ↦ rw e (take-min cap row.samples)
]

-- The columns that the code prints.
pub tool_columns-header_columns :
    (own : Role) (cap : ℕ) (row : TextRow) (chip : ChipRow)
    → row.by_chip ≡ chip
    → emit_len cap row ≡ length (shown cap row)
    → tool_columns own cap row ≡ header_columns own cap row
unfolding tool_columns
tool_columns-header_columns own cap row (ChipRow.classic c) e n = ground (arith, e, n)
tool_columns-header_columns own cap row (ChipRow.ax6 a sigb_len cur_single_mpdu rxmatch0) e n =
    ground (arith, e, n)
tool_columns-header_columns own cap row (ChipRow.ax5 a) e n = ground (arith, e, n)
