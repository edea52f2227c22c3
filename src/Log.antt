-- ===== src/Log.antt =====
-- src/lib/logging/logging.rs: the state of the log, the channel that `log_csi` fills, and the
-- backend task that empties it onto the console, with the `async-print`, `println` and `statistics`
-- features. The console's `write` is taken from `answers`: `none`, or as long as there is no answer,
-- it takes all bytes; `some n` is an error behind `n` bytes. `encode_cobs` is an argument.
pub mod Text
pub mod Frames
pub mod Rounds
pub mod Streams
pub mod Sync
pub mod Same
pub mod Whole
mod Tests
use esp_csi_rs.Base.{
  ℕ, zero, suc, ◌+◌, ◌%◌, ◌^◌, Bool, true, false, Option, none, some, List, [], ◌∷◌, ◌++◌, ltb,
  ◌==◌, if◌then◌else◌, length, take,
}
use esp_csi_rs.Base.Text.{codes}
use esp_csi_rs.Wire.{Body, CsiFrame, Envelope, SessionInfo}
use esp_csi_rs.Packet.{CsiPacket}
use esp_csi_rs.Config.{Build}
use esp_csi_rs.Row.{text_row}
use esp_csi_rs.Line.{Role, esp_csi_tool_header, format_array_list_into, format_csi_tool_into}
use esp_csi_rs.Log.Text.{Console, write, write_text_packet}

pub data LogMode : Type 0 where
  text serialized array_list esp_csi_tool : LogMode

-- The statics.
pub record Log : Type 0 where
  pub log_mode : LogMode
  pub role : Role
  pub header_printed : Bool
  pub async_active : Bool
  pub emit_cap : ℕ
  pub dropped : ℕ
  pub csi_channel : List CsiPacket
  pub text_channel : List (List ℕ)

abbrev pub new_log : Log
new_log = record {
  log_mode = LogMode.text;
  role = Role.sta;
  header_printed = false;
  async_active = false;
  emit_cap = 0;
  dropped = 0;
  csi_channel = [];
  text_channel = [];
}

abbrev pub csi_log_channel_capacity : ℕ
csi_log_channel_capacity = 32

abbrev pub text_log_channel_capacity : ℕ
text_log_channel_capacity = 64

abbrev pub scratch_len : ℕ
scratch_len = 3328

abbrev pub set_log_mode : LogMode → Log → Log
set_log_mode mode l = record l { log_mode = mode; header_printed = false }

abbrev pub set_role : Role → Log → Log
set_role role l = record l { role = role }

abbrev pub set_csi_tool_emit_cap : ℕ → Log → Log
set_csi_tool_emit_cap cap l = record l { emit_cap = cap }

abbrev pub record_log_drop : Log → Log
record_log_drop l = record l { dropped = (l.dropped + 1) % 2 ^ 32 }

abbrev pub reset_global_log_drops : Log → Log
reset_global_log_drops l = record l { dropped = 0 }

-- `log_csi` with the async backend.
unfoldable pub log_csi : CsiPacket → Log → Log
log_csi p l =
    if ltb (length l.csi_channel) csi_log_channel_capacity
    then record l { csi_channel = l.csi_channel ++ (p ∷ []) }
    else record_log_drop l

-- `EspLogger::log`: the message and its line end in 256 bytes, or none of it.
unfoldable pub log_text : List ℕ → Log → Log
log_text msg l =
    if ltb 256 (length msg + 2)
    then l
    else if ltb (length l.text_channel) text_log_channel_capacity
    then record l { text_channel = l.text_channel ++ ((msg ++ (13 ∷ 10 ∷ [])) ∷ []) }
    else l

-- The log and the console.
pub record Backend : Type 0 where
  pub log : Log
  pub console : Console

abbrev pub write_console : List ℕ → Backend → Backend × Bool
write_console bytes b = let out = write bytes b.console in (record b { console = out.0 }, out.1)

-- `.await?`: what follows a write that went well.
abbrev pub and_also : Backend × Bool → (Backend → Backend) → Backend
and_also (b, false) k = b
and_also (b, true) k = k b

-- `write_text_framed`; errors are ignored.
abbrev pub text_in_mode : LogMode → List ℕ → Backend → Backend
text_in_mode LogMode.serialized bytes b =
    (write_console (0 ∷ []) (write_console bytes (write_console (0 ∷ []) b).0).0).0
text_in_mode _ bytes b = (write_console bytes b).0

unfoldable pub write_text_framed : List ℕ → Backend → Backend
write_text_framed bytes b = text_in_mode b.log.log_mode bytes b

abbrev pub write_frame : Option (List ℕ) → Backend → Backend
write_frame none b = b
write_frame (some frame) b = (write_console frame b).0

-- `while let Ok(message) = LOG_CHANNEL.try_receive()`.
unfoldable pub write_messages : List (List ℕ) → Backend → Backend
unfolding write_text_framed
write_messages [] b = b
write_messages (m ∷ ms) b = write_messages ms (write_text_framed m b)

abbrev pub drain_messages : Backend → Backend
drain_messages b =
    write_messages b.log.text_channel (record b { log = record b.log { text_channel = [] } })

abbrev pub after_packet : Option Backend → Option Backend
after_packet none = none
after_packet (some b) = some (drain_messages b)

abbrev pub serve_message : List (List ℕ) → Backend → Backend
serve_message [] b = b
serve_message (m ∷ ms) b =
    write_text_framed m (record b { log = record b.log { text_channel = ms } })

module _ (build : Build) (encode_cobs : Envelope → Body → Option (List ℕ)) where
  -- The second half of `write_serialized_packet_async`.
  abbrev pub write_measurement : CsiPacket → Backend → Backend
  write_measurement p b = write_frame (encode_cobs p.envelope (Body.csi p.frame)) b

  abbrev pub encode_session : CsiPacket → Option SessionInfo → Option (List ℕ)
  encode_session p none = none
  encode_session p (some info) = encode_cobs p.envelope (Body.session info)

  abbrev pub behind_session : Option (List ℕ) → CsiPacket → Backend → Backend
  behind_session none p b = write_measurement p b
  behind_session (some frame) p b = and_also (write_console frame b) (write_measurement p)

  unfoldable pub write_serialized_packet_async : CsiPacket → Backend → Backend
  write_serialized_packet_async p b = behind_session (encode_session p p.session) p b

  -- A line that has bytes, or the drop of a refused one; `none` is a panic.
  abbrev pub write_line : Option (List ℕ) → Backend → Option Backend
  write_line none b = none
  write_line (some []) b = some (record b { log = record_log_drop b.log })
  write_line (some (c ∷ line)) b = some (write_console (c ∷ line) b).0

  unfoldable pub write_text_array_packet_async : CsiPacket → Backend → Option Backend
  write_text_array_packet_async p b =
      write_line (format_array_list_into scratch_len (text_row build p)) b

  abbrev pub write_tool_line : Option (List ℕ) → Backend → Option Backend
  write_tool_line none b = none
  write_tool_line (some line) b = some (write_console line b).0

  -- The header before the first line; its flag is set even where the console fails.
  abbrev pub write_tool_header : Backend → Backend × Bool
  write_tool_header b =
      if b.log.header_printed
      then (b, true)
      else write_console esp_csi_tool_header
          (record b { log = record b.log { header_printed = true } })

  abbrev pub tool_row : CsiPacket → Backend × Bool → Option Backend
  tool_row p (b, false) = some b
  tool_row p (b, true) =
      write_tool_line
        (format_csi_tool_into scratch_len b.log.role b.log.emit_cap (text_row build p)) b

  unfoldable pub write_csi_tool_packet_async : CsiPacket → Backend → Option Backend
  write_csi_tool_packet_async p b = tool_row p (write_tool_header b)

  -- The `match` on the mode in `logger_backend`.
  abbrev pub packet_in_mode : LogMode → CsiPacket → Backend → Option Backend
  packet_in_mode LogMode.serialized p b = some (write_serialized_packet_async p b)
  packet_in_mode LogMode.array_list p b = write_text_array_packet_async p b
  packet_in_mode LogMode.text p b =
      some (record b { console = write_text_packet scratch_len (text_row build p) b.console })
  packet_in_mode LogMode.esp_csi_tool p b = write_csi_tool_packet_async p b

  unfoldable pub write_packet : CsiPacket → Backend → Option Backend
  write_packet p b = packet_in_mode b.log.log_mode p b

  -- A round of `logger_backend`: a packet has priority over the messages.
  abbrev pub round_on : List CsiPacket → Backend → Option Backend
  round_on [] b = some (serve_message b.log.text_channel b)
  round_on (p ∷ ps) b =
      after_packet (write_packet p (record b { log = record b.log { csi_channel = ps } }))

  unfoldable pub backend_round : Backend → Option Backend
  backend_round b = round_on b.log.csi_channel b
