-- ===== src/Log/Tests.antt =====
-- Examples on the log.
use esp_csi_rs.Base.{ℕ, ◌≡◌, ◌≤◌, leb, length, true, refl, Option, some, List, [], ◌∷◌, arith}
use esp_csi_rs.Config.{Build}
use esp_csi_rs.Wire.{Body, Envelope}
use esp_csi_rs.Samples.{packet}
use esp_csi_rs.Row.{text_row}
use esp_csi_rs.Decimal.{hex_digits, u32_digits}
use esp_csi_rs.Packet.{csi_data}
use esp_csi_rs.Line.Calls.{concat_calls}
use esp_csi_rs.Log.Text.{line_end, text_lines, write_text_packet}
use esp_csi_rs.Log.Sync.{Sync, Times, log_csi_sync}
use esp_csi_rs.Log.Same.{backend_of, log_csi_sync-write_packet}
use esp_csi_rs.Log.Whole.{text_record, write_text_packet_lem}
use esp_csi_rs.Log.{Backend, LogMode, new_log, set_log_mode, scratch_len, write_packet}
use esp_csi_rs.Log.Frames.{Cobs, frames_from, host_frames}
use esp_csi_rs.Log.Rounds.{Event, sent, steps}
use esp_csi_rs.Log.Streams.{steps-host_frames}

-- In place of postcard and COBS: a byte that tells the kinds of body apart.
abbrev kind_byte : Envelope → Body → Option (List ℕ)
kind_byte e (Body.session info) = some (2 ∷ 0 ∷ [])
kind_byte e _ = some (1 ∷ 0 ∷ [])

kind_byte-Cobs : (e : Envelope) (x : Body) (f : List ℕ) → kind_byte e x ≡ some f → Cobs f
kind_byte-Cobs e (Body.session info) f h = record {
  body = 2 ∷ [];
  shape = cc;
  ok = (omega arith, (omega arith, tt));
}
kind_byte-Cobs e (Body.csi frame) f h = record {
  body = 1 ∷ [];
  shape = cc;
  ok = (omega arith, (omega arith, tt));
}

-- Two packets and a message wait when the backend gets its turns.
abbrev events : List Event
events =
    Event.packet (packet 3)
    ∷ Event.message (104 ∷ 105 ∷ [])
    ∷ Event.packet (packet 4)
    ∷ Event.round
    ∷ Event.round
    ∷ []

abbrev serial : Backend
serial = record {
  log = set_log_mode LogMode.serialized new_log;
  console = record { link = []; answers = [] };
}

frames_seen :
    sent Build.classic kind_byte events [] []
    ≡ (1 ∷ []) ∷ (104 ∷ 105 ∷ 13 ∷ 10 ∷ []) ∷ (1 ∷ []) ∷ []
unfolding frames_from
frames_seen = refl

steps-host_frames_example :
    (b' : Backend) × (steps Build.classic kind_byte events serial ≡ some b')
    × (host_frames b'.console.link ≡ sent Build.classic kind_byte events [] [])
steps-host_frames_example =
    steps-host_frames Build.classic kind_byte events serial kind_byte-Cobs
      (
        tt,
        (
          ((λ (e : 104 ≡ 0). omega arith), ((λ (e : 105 ≡ 0). omega arith), tt)),
          (tt, (tt, (tt, tt))),
        ),
      )
      tt refl refl refl

abbrev board_log : Sync
board_log = record { backend = serial; format_us = 0; write_us = 0; pkt_count = 0 }

abbrev times : Times
times = record { t0 = 10; t1 = 30; t2 = 70 }

log_csi_sync-write_packet_example :
    backend_of (log_csi_sync Build.classic kind_byte times (packet 3) board_log)
    ≡ write_packet Build.classic kind_byte (packet 3) serial
log_csi_sync-write_packet_example =
    log_csi_sync-write_packet Build.classic kind_byte times (packet 3) board_log
      (λ (e : LogMode.serialized ≡ LogMode.text). cc) refl

below : (a b : ℕ) → leb a b ≡ true → a ≤ b
below a b e = ground (arith, e)

lines_fit :
    length (concat_calls (text_lines line_end (text_row Build.classic (packet 3)))) ≤ scratch_len
unfolding hex_digits u32_digits text_row csi_data
lines_fit =
    below (length (concat_calls (text_lines line_end (text_row Build.classic (packet 3)))))
      scratch_len refl

write_text_packet_lem_example :
    write_text_packet scratch_len (text_row Build.classic (packet 3)) serial.console
    ≡ record { link = text_record (text_row Build.classic (packet 3)); answers = [] }
write_text_packet_lem_example =
    write_text_packet_lem scratch_len (text_row Build.classic (packet 3)) serial.console refl
      lines_fit
