-- ===== src/Log/Same.antt =====
-- The sync and the async path of the log, on a console that takes all bytes.
use esp_csi_rs.Base.{
  ℕ, ◌≡◌, ◌≢◌, refl, sym, ap, ◌∙◌, Bool, true, false, Option, none, some, List, [], ◌∷◌, ◌++◌,
  if◌then◌else◌, if-false,
}
use esp_csi_rs.Wire.{Body, Envelope}
use esp_csi_rs.Packet.{CsiPacket}
use esp_csi_rs.Config.{Build}
use esp_csi_rs.Row.{text_row}
use esp_csi_rs.Line.{esp_csi_tool_header, format_array_list_into, format_csi_tool_into}
use esp_csi_rs.Log.{
  Backend, LogMode, and_also, behind_session, encode_session, packet_in_mode, scratch_len,
  text_in_mode, tool_row, write_console, write_frame, write_line, write_measurement, write_packet,
  write_serialized_packet_async, write_text_array_packet_async, write_csi_tool_packet_async,
  write_text_framed, write_tool_line,
}
use esp_csi_rs.Log.Frames.{write_ready}
use esp_csi_rs.Log.Sync.{
  Sync, Times, count_times, framed_in_mode, log_csi_sync, log_line, print, print_frame, print_line,
  print_tool_header, print_tool_line, sync_in_mode, tool_row_sync, with_backend,
  write_serialized_packet_sync,
}

abbrev pub backend_of : Option Sync → Option Backend
backend_of none = none
backend_of (some s) = some s.backend

console_print :
    (bytes : List ℕ) (b : Backend)
    → b.console.answers ≡ []
    → write_console bytes b ≡ (print bytes b, true)
console_print bytes b ready =
    write_ready bytes b ready
    ∙ ap
        (λ a. (record b { console = record { link = b.console.link ++ bytes; answers = a } }, true))
        (sym ready)

frame_print :
    (o : Option (List ℕ)) (b : Backend) → b.console.answers ≡ [] → write_frame o b ≡ print_frame o b
frame_print none b ready = refl
frame_print (some f) b ready = ap (λ o. o.0) (console_print f b ready)

module _ (build : Build) (encode_cobs : Envelope → Body → Option (List ℕ)) where
  line_print :
      (o : Option (List ℕ)) (b : Backend)
      → b.console.answers ≡ []
      → write_line build encode_cobs o b ≡ print_line o b
  line_print none b ready = refl
  line_print (some []) b ready = refl
  line_print (some (c ∷ line)) b ready = ap (λ o. some o.0) (console_print (c ∷ line) b ready)

  tool_line_print :
      (o : Option (List ℕ)) (b : Backend)
      → b.console.answers ≡ []
      → write_tool_line build encode_cobs o b ≡ print_tool_line o b
  tool_line_print none b ready = refl
  tool_line_print (some line) b ready = ap (λ o. some o.0) (console_print line b ready)

  serialized_print :
      (o : Option (List ℕ)) (p : CsiPacket) (b : Backend)
      → b.console.answers ≡ []
      → behind_session build encode_cobs o p b
        ≡ print_frame (encode_cobs p.envelope (Body.csi p.frame)) (print_frame o b)
  serialized_print none p b ready = frame_print (encode_cobs p.envelope (Body.csi p.frame)) b ready
  serialized_print (some f) p b ready =
      ap (λ o. and_also o (write_measurement build encode_cobs p)) (console_print f b ready)
      ∙ frame_print (encode_cobs p.envelope (Body.csi p.frame)) (print f b) ready

  -- The header, then the line, for each state of the flag.
  tool_print :
      (done : Bool) (p : CsiPacket) (b : Backend)
      → b.console.answers ≡ []
      → tool_row build encode_cobs p (
          if done
          then (b, true)
          else write_console esp_csi_tool_header
              (record b { log = record b.log { header_printed = true } }))
        ≡ tool_row_sync build encode_cobs p (
            if done
            then b
            else print esp_csi_tool_header
                (record b { log = record b.log { header_printed = true } }))
  tool_print true p b ready =
      tool_line_print
        (format_csi_tool_into scratch_len b.log.role b.log.emit_cap (text_row build p)) b ready
  tool_print false p b ready =
      let b1 : Backend = record b { log = record b.log { header_printed = true } } in
      ap (tool_row build encode_cobs p) (console_print esp_csi_tool_header b1 ready)
      ∙ tool_line_print
          (format_csi_tool_into scratch_len b.log.role b.log.emit_cap (text_row build p))
          (print esp_csi_tool_header b1) ready

  backend_of-count_times :
      (t : Times) (s : Sync) (o : Option Backend) → backend_of (count_times t s o) ≡ o
  backend_of-count_times t s none = refl
  backend_of-count_times t s (some b) = refl

  backend_of-with_backend : (s : Sync) (o : Option Backend) → backend_of (with_backend s o) ≡ o
  backend_of-with_backend s none = refl
  backend_of-with_backend s (some b) = refl

  mode_print :
      (mode : LogMode) (t : Times) (p : CsiPacket) (s : Sync)
      → mode ≢ LogMode.text
      → s.backend.console.answers ≡ []
      → backend_of (sync_in_mode build encode_cobs mode t p s)
        ≡ packet_in_mode build encode_cobs mode p s.backend
  unfolding write_serialized_packet_async write_serialized_packet_sync write_text_array_packet_async
      write_csi_tool_packet_async
  mode_print LogMode.text t p s other ready = absurd (other refl)
  mode_print LogMode.serialized t p s other ready =
      ap some
        (sym (serialized_print (encode_session build encode_cobs p p.session) p s.backend ready))
  mode_print LogMode.array_list t p s other ready =
      let line : Option (List ℕ) = format_array_list_into scratch_len (text_row build p) in
      backend_of-with_backend s (print_line line s.backend) ∙ sym (line_print line s.backend ready)
  mode_print LogMode.esp_csi_tool t p s other ready =
      backend_of-count_times t s (tool_row_sync build encode_cobs p (print_tool_header s.backend))
      ∙ sym (tool_print s.backend.log.header_printed p s.backend ready)

-- In each mode but text, on a console that takes all bytes: the sync path leaves the same log and
-- the same bytes on the console for a packet as the async path, and panics where it does.
pub log_csi_sync-write_packet :
    (build : Build) (encode_cobs : Envelope → Body → Option (List ℕ)) (t : Times) (p : CsiPacket)
    (s : Sync)
    → s.backend.log.log_mode ≢ LogMode.text
    → s.backend.console.answers ≡ []
    → backend_of (log_csi_sync build encode_cobs t p s) ≡ write_packet build encode_cobs p s.backend
unfolding log_csi_sync write_packet
log_csi_sync-write_packet build encode_cobs t p s other ready =
    mode_print build encode_cobs s.backend.log.log_mode t p s other ready

three_prints :
    (msg : List ℕ) (b : Backend)
    → b.console.answers ≡ []
    → text_in_mode LogMode.serialized msg b ≡ framed_in_mode LogMode.serialized msg b
three_prints msg b ready =
    ap (λ o. (write_console (0 ∷ []) (write_console msg o.0).0).0) (console_print (0 ∷ []) b ready)
    ∙ (ap (λ o. (write_console (0 ∷ []) o.0).0) (console_print msg (print (0 ∷ []) b) ready)
        ∙ ap (λ o. o.0) (console_print (0 ∷ []) (print msg (print (0 ∷ []) b)) ready))

-- In serialized mode both paths put a message into a frame of its own.
pub log_line-write_text_framed :
    (msg : List ℕ) (b : Backend)
    → b.log.async_active ≡ false
    → b.log.log_mode ≡ LogMode.serialized
    → b.console.answers ≡ []
    → log_line msg b ≡ write_text_framed msg b
unfolding log_line write_text_framed
log_line-write_text_framed msg b off mode ready =
    if-false {b = b.log.async_active} _ _ off
    ∙ (ap (λ m. framed_in_mode m msg b) mode
        ∙ (sym (three_prints msg b ready) ∙ sym (ap (λ m. text_in_mode m msg b) mode)))
