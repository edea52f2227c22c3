-- ===== src/Log/Sync.antt =====
-- src/lib/logging/logging.rs: `log_csi` and `log_line`, with the sync path, on which the callback
-- itself writes to the console.
use esp_csi_rs.Base.{
  ℕ, ◌+◌, ◌-◌, ◌%◌, ◌^◌, true, Option, none, some, List, [], ◌∷◌, ◌++◌, ltb, if◌then◌else◌,
}
use esp_csi_rs.Base.Text.{codes}
use esp_csi_rs.Base.Int.{ℤ, pos, negsuc}
use esp_csi_rs.Decimal.{hex_digit, hex_digits}
use esp_csi_rs.Wire.{Body, Envelope}
use esp_csi_rs.Packet.{CsiPacket}
use esp_csi_rs.Config.{Build}
use esp_csi_rs.Row.{TextRow, text_row}
use esp_csi_rs.Line.{esp_csi_tool_header, format_array_list_into, format_csi_tool_into}
use esp_csi_rs.Line.Calls.{concat_calls}
use esp_csi_rs.Log.{
  Backend, LogMode, encode_session, log_csi, log_text, record_log_drop, scratch_len,
}
use esp_csi_rs.Log.Text.{text_lines}

-- `SYNC_FORMAT_US`, `SYNC_WRITE_US` and `SYNC_PKT_COUNT`, with the log and the console.
pub record Sync : Type 0 where
  pub backend : Backend
  pub format_us : ℕ
  pub write_us : ℕ
  pub pkt_count : ℕ

-- `log_raw!` and `uart0_write_bytes_fast`.
abbrev pub print : List ℕ → Backend → Backend
print bytes b = record b { console = record b.console { link = b.console.link ++ bytes } }

abbrev pub print_frame : Option (List ℕ) → Backend → Backend
print_frame none b = b
print_frame (some frame) b = print frame b

abbrev pub print_line : Option (List ℕ) → Backend → Option Backend
print_line none b = none
print_line (some []) b = some (record b { log = record_log_drop b.log })
print_line (some (c ∷ line)) b = some (print (c ∷ line) b)

abbrev pub print_tool_line : Option (List ℕ) → Backend → Option Backend
print_tool_line none b = none
print_tool_line (some line) b = some (print line b)

abbrev pub byte_hex : ℕ → List ℕ
byte_hex n = if ltb n 16 then hex_digit n ∷ [] else hex_digits n

-- `{:X}` of an `i8`: its byte, without a leading zero.
abbrev pub i8_hex : ℤ → List ℕ
i8_hex (pos n) = byte_hex n
i8_hex (negsuc n) = byte_hex (255 - n)

-- `{:X?}` of a slice, without its brackets.
abbrev pub debug_hex : List ℤ → List ℕ
debug_hex [] = []
debug_hex (v ∷ []) = i8_hex v
debug_hex (v ∷ w ∷ vs) = i8_hex v ++ (codes ", " ++ debug_hex (w ∷ vs))

-- `write_text_packet_sync`: a `log_ln!` for each line.
abbrev pub write_text_packet_sync : TextRow → Backend → Backend
write_text_packet_sync row b =
    print (codes "[" ++ (debug_hex row.samples ++ (codes "]]" ++ (10 ∷ []))))
      (print (concat_calls (text_lines (10 ∷ []) row)) b)

abbrev pub print_tool_header : Backend → Backend
print_tool_header b =
    if b.log.header_printed
    then b
    else print esp_csi_tool_header (record b { log = record b.log { header_printed = true } })

-- The clock around the format and the write.
pub record Times : Type 0 where
  pub t0 : ℕ
  pub t1 : ℕ
  pub t2 : ℕ

abbrev pub count_times : Times → Sync → Option Backend → Option Sync
count_times t s none = none
count_times t s (some b) = some (record {
  backend = b;
  format_us = (s.format_us + (t.t1 - t.t0)) % 2 ^ 64;
  write_us = (s.write_us + (t.t2 - t.t1)) % 2 ^ 64;
  pkt_count = (s.pkt_count + 1) % 2 ^ 64;
})

abbrev pub with_backend : Sync → Option Backend → Option Sync
with_backend s none = none
with_backend s (some b) = some (record s { backend = b })

module _ (build : Build) (encode_cobs : Envelope → Body → Option (List ℕ)) where
  -- `encode_packet_frames`, with the write of each frame.
  unfoldable pub write_serialized_packet_sync : CsiPacket → Backend → Backend
  write_serialized_packet_sync p b =
      print_frame (encode_cobs p.envelope (Body.csi p.frame))
        (print_frame (encode_session build encode_cobs p p.session) b)

  abbrev pub write_text_array_packet_sync : CsiPacket → Backend → Option Backend
  write_text_array_packet_sync p b =
      print_line (format_array_list_into scratch_len (text_row build p)) b

  abbrev pub tool_row_sync : CsiPacket → Backend → Option Backend
  tool_row_sync p b =
      print_tool_line
        (format_csi_tool_into scratch_len b.log.role b.log.emit_cap (text_row build p)) b

  abbrev pub write_csi_tool_packet_sync : Times → CsiPacket → Sync → Option Sync
  write_csi_tool_packet_sync t p s = count_times t s (tool_row_sync p (print_tool_header s.backend))

  abbrev pub sync_in_mode : LogMode → Times → CsiPacket → Sync → Option Sync
  sync_in_mode LogMode.text t p s =
      some (record s { backend = write_text_packet_sync (text_row build p) s.backend })
  sync_in_mode LogMode.serialized t p s =
      some (record s { backend = write_serialized_packet_sync p s.backend })
  sync_in_mode LogMode.array_list t p s = with_backend s (write_text_array_packet_sync p s.backend)
  sync_in_mode LogMode.esp_csi_tool t p s = write_csi_tool_packet_sync t p s

  unfoldable pub log_csi_sync : Times → CsiPacket → Sync → Option Sync
  log_csi_sync t p s = sync_in_mode s.backend.log.log_mode t p s

  -- `log_csi`, with the `auto` feature.
  unfoldable pub log_csi_auto : Times → CsiPacket → Sync → Option Sync
  log_csi_auto t p s =
      if s.backend.log.async_active
      then some (record s { backend = record s.backend { log = log_csi p s.backend.log } })
      else log_csi_sync t p s

-- `log_ln!` of a message.
abbrev pub log_ln : List ℕ → Backend → Backend
log_ln msg b =
    if b.log.async_active then record b { log = log_text msg b.log } else print (msg ++ (10 ∷ [])) b

abbrev pub framed_in_mode : LogMode → List ℕ → Backend → Backend
framed_in_mode LogMode.serialized msg b = print (0 ∷ []) (print msg (print (0 ∷ []) b))
framed_in_mode _ msg b = log_ln msg b

unfoldable pub log_line : List ℕ → Backend → Backend
log_line msg b = if b.log.async_active then log_ln msg b else framed_in_mode b.log.log_mode msg b
