-- ===== src/Log/Text.antt =====
-- The console, and `write_text_packet_async` of src/lib/logging/logging.rs.
use esp_csi_rs.Base.{
  ℕ, ◌+◌, Bool, true, false, Option, none, some, List, [], ◌∷◌, ◌++◌, ltb, if◌then◌else◌, length,
  take,
}
use esp_csi_rs.Base.Text.{codes}
use esp_csi_rs.Base.Int.{ℤ}
use esp_csi_rs.Mac.{Mac}
use esp_csi_rs.Decimal.{hex_digits, i8_digits}
use esp_csi_rs.Row.{AxRow, ChipRow, TextRow}
use esp_csi_rs.Line.{display_u32, write_calls}

pub record Console : Type 0 where
  pub link : List ℕ
  pub answers : List (Option ℕ)

abbrev pub answer : Option ℕ → List ℕ → List ℕ → List (Option ℕ) → Console × Bool
answer none bytes link answers = (record { link = link ++ bytes; answers = answers }, true)
answer (some n) bytes link answers =
    (record { link = link ++ take n bytes; answers = answers }, false)

abbrev pub on_answers : List (Option ℕ) → List ℕ → List ℕ → Console × Bool
on_answers [] bytes link = answer none bytes link []
on_answers (a ∷ answers) bytes link = answer a bytes link answers

-- `LogOutput::write`, and whether it went well.
unfoldable pub write : List ℕ → Console → Console × Bool
write bytes c = on_answers c.answers bytes c.link

abbrev pub line_end : List ℕ
line_end = 13 ∷ 10 ∷ []

abbrev pub number_line : List ℕ → List ℕ → ℕ → List (List ℕ)
number_line eol label n = label ∷ display_u32 n ∷ eol ∷ []

abbrev pub signed_line : List ℕ → List ℕ → ℤ → List (List ℕ)
signed_line eol label (ℤ.pos n) = number_line eol label n
signed_line eol label (ℤ.negsuc n) = label ∷ codes "-" ∷ display_u32 (n + 1) ∷ eol ∷ []

abbrev pub mac_line : List ℕ → Mac → List (List ℕ)
mac_line eol m =
    codes "mac: "
    ∷ hex_digits m.b0
    ∷ codes ":"
    ∷ hex_digits m.b1
    ∷ codes ":"
    ∷ hex_digits m.b2
    ∷ codes ":"
    ∷ hex_digits m.b3
    ∷ codes ":"
    ∷ hex_digits m.b4
    ∷ codes ":"
    ∷ hex_digits m.b5
    ∷ eol
    ∷ []

abbrev pub ax_lines : List ℕ → AxRow → ℕ → List (List (List ℕ)) → List (List (List ℕ))
ax_lines eol a channel rest =
    number_line eol (codes "cur bb format: ") a.cur_bb_format
    ∷ number_line eol (codes "rx channel estimate info vld: ") a.rx_channel_estimate_info_vld
    ∷ number_line eol (codes "rx channel estimate len: ") a.rx_channel_estimate_len
    ∷ number_line eol (codes "time seconds: ") a.second
    ∷ number_line eol (codes "channel: ") channel
    ∷ number_line eol (codes "is group: ") a.is_group
    ∷ number_line eol (codes "rxend state: ") a.rxend_state
    ∷ number_line eol (codes "rxmatch3: ") a.rxmatch3
    ∷ number_line eol (codes "rxmatch2: ") a.rxmatch2
    ∷ number_line eol (codes "rxmatch1: ") a.rxmatch1
    ∷ rest

abbrev pub chip_lines : List ℕ → ChipRow → ℕ → List (List (List ℕ)) → List (List (List ℕ))
chip_lines eol (ChipRow.classic c) channel rest =
    number_line eol (codes "secondary channel: ") c.secondary_channel
    ∷ number_line eol (codes "sgi: ") c.sgi
    ∷ number_line eol (codes "ant: ") c.antenna
    ∷ number_line eol (codes "ampdu cnt: ") c.ampdu_cnt
    ∷ number_line eol (codes "sig_mode: ") c.sig_mode
    ∷ number_line eol (codes "mcs: ") c.mcs
    ∷ number_line eol (codes "cwb: ") c.bandwidth
    ∷ number_line eol (codes "smoothing: ") c.smoothing
    ∷ number_line eol (codes "not sounding: ") c.not_sounding
    ∷ number_line eol (codes "aggregation: ") c.aggregation
    ∷ number_line eol (codes "stbc: ") c.stbc
    ∷ number_line eol (codes "fec coding: ") c.fec_coding
    ∷ rest
chip_lines eol (ChipRow.ax6 a sigb_len cur_single_mpdu rxmatch0) channel rest =
    number_line eol (codes "dump len: ") a.dump_len
    ∷ number_line eol (codes "sigb len: ") sigb_len
    ∷ number_line eol (codes "cur single mpdu: ") cur_single_mpdu
    ∷ ax_lines eol a channel (number_line eol (codes "rxmatch0: ") rxmatch0 ∷ rest)
chip_lines eol (ChipRow.ax5 a) channel rest =
    number_line eol (codes "dump len: ") a.dump_len ∷ ax_lines eol a channel rest

-- The `line!`s, and the opening of the samples.
abbrev pub text_lines : List ℕ → TextRow → List (List (List ℕ))
text_lines eol row =
    mac_line eol row.mac
    ∷ number_line eol (codes "sequence number: ") row.sequence_number
    ∷ signed_line eol (codes "rssi: ") row.rssi
    ∷ number_line eol (codes "rate: ") row.rate
    ∷ signed_line eol (codes "noise floor: ") row.noise_floor
    ∷ number_line eol (codes "channel: ") row.channel
    ∷ number_line eol (codes "timestamp: ") row.timestamp
    ∷ number_line eol (codes "sig len: ") row.sig_len
    ∷ number_line eol (codes "rx state: ") row.rx_state
    ∷ chip_lines eol row.by_chip row.channel (
        number_line eol (codes "sig_len: ") row.sig_len
        ∷ number_line eol (codes "data length: ") row.csi_data_len
        ∷ (codes "csi raw data: [" ∷ [])
        ∷ [])

-- `elem`: a value, and a separator behind all but the last.
abbrev pub sample_texts : List ℤ → List (List ℕ)
sample_texts [] = []
sample_texts (v ∷ []) = i8_digits v ∷ []
sample_texts (v ∷ w ∷ vs) = (i8_digits v ++ codes ", ") ∷ sample_texts (w ∷ vs)

-- `.await?`.
abbrev pub and_write : Console × Bool → (Console → Console) → Console
and_write (c, false) k = c
and_write (c, true) k = k c

-- The end of the line, behind what is left in the scratch.
abbrev pub finish_text : List ℕ → Console → Console
finish_text [] c = (write (b']' ∷ line_end) c).0
finish_text (x ∷ held) c = and_write (write (x ∷ held) c) (λ c'. (write (b']' ∷ line_end) c').0)

-- The loop over the values: the scratch holds `held` and is written out when a value does not fit.
unfoldable pub stream : ℕ → List (List ℕ) → List ℕ → Console → Console
unfolding write
stream room [] held c = finish_text held c
stream room (s ∷ ss) held c =
    if ltb room (length held + length s)
    then and_write (write held c) (stream room ss s)
    else stream room ss (held ++ s) c

unfoldable pub write_text_packet : ℕ → TextRow → Console → Console
unfolding stream write_calls
write_text_packet room row c =
    and_write (write (write_calls room (text_lines line_end row) []) c)
      (stream room (sample_texts row.samples) [])
