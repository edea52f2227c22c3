-- ===== src/Packet.antt =====
-- src/lib/csi/mod.rs: the delivered packet, a frame in this node's envelope.
pub mod Run
mod Tests
use esp_csi_rs.Base.{ℕ, ◌/◌, Option, List, [], length, unwrap_or}
use esp_csi_rs.Base.Int.{ℤ}
use esp_csi_rs.Mac.{Mac, zero_mac}
use esp_csi_rs.Wire.{Chip, Envelope, SessionInfo, SourceKind, CsiFrame, CsiPayload, transmitter}
use esp_csi_rs.Session.{Session, take_announcement, next_envelope}

pub record CsiPacket : Type 0 where
  pub envelope : Envelope
  pub frame : CsiFrame
  pub session : Option SessionInfo

-- What the build and the chip fix: the base MAC, the chip and the crate's version.
pub record Device : Type 0 where
  pub base_mac : Mac
  pub chip : Chip
  pub crate_version : List ℕ

-- `CsiPacket::new`, at `now_us` on the monotonic clock.
unfoldable pub new_packet : Device → ℕ → SourceKind → CsiFrame → Session → Session × CsiPacket
new_packet d now_us source frame s =
    let (s', announcement) =
      take_announcement d.chip d.crate_version now_us frame.meta.timestamp_us s in
    let (s'', envelope) = next_envelope d.base_mac source s' in
    (s'', record { envelope = envelope; frame = frame; session = announcement })

-- `CsiPacket::mac`.
unfoldable pub packet_mac : CsiPacket → Mac
unfolding transmitter
packet_mac p = unwrap_or (transmitter p.frame) zero_mac

-- `CsiPacket::csi_data` and `subcarriers`.
unfoldable pub csi_data : CsiPacket → List ℤ
csi_data p = elim p.frame.payload [
  | CsiPayload.esp_raw chip layout first_word_invalid bytes ↦ bytes
  | _ ↦ []
]

unfoldable pub subcarriers : CsiPacket → ℕ
unfolding csi_data
subcarriers p = length (csi_data p) / 2
