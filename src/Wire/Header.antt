-- ===== src/Wire/Header.antt =====
-- src/lib/wire/mod.rs, `HeaderDigest`, and src/lib/emitter/frame.rs, `build_probe_frame`, which
-- writes the header that a receiver's digest reads.
pub mod Probe
use esp_csi_rs.Base.{
  ℕ, zero, suc, ◌+◌, ◌*◌, ◌/◌, ◌%◌, ◌^◌, bit_and, Bool, true, false, not, ◌&&◌, ◌||◌, Option, none,
  some, List, [], ◌∷◌, ◌++◌, ◌==◌, ltb, if◌then◌else◌, length, get_or, drop,
}
use esp_csi_rs.Mac.{Mac, mac_bytes}
use esp_csi_rs.Wire.{HeaderDigest}

-- `HeaderDigest::HEADER_LEN`.
abbrev pub header_len : ℕ
header_len = 24

-- `(frame_control >> 2) & 0b11` and `(frame_control >> 4) & 0b1111`.
unfoldable pub frame_type : HeaderDigest → ℕ
frame_type h = bit_and (h.frame_control / 4) 0b11

unfoldable pub subtype : HeaderDigest → ℕ
subtype h = bit_and (h.frame_control / 16) 0b1111

unfoldable pub is_retry : HeaderDigest → Bool
is_retry h = not (bit_and h.frame_control (2 ^ 11) == 0)

unfoldable pub has_transmitter : HeaderDigest → Bool
unfolding frame_type subtype
has_transmitter h = not (frame_type h == 1 && (subtype h == 12 || subtype h == 13))

unfoldable pub sequence_number : HeaderDigest → ℕ
sequence_number h = h.seq_ctrl / 16

-- `u16::from_le_bytes` of the two bytes at `i`.
abbrev pub le16 : List ℕ → ℕ → ℕ
le16 buf i = get_or buf i 0 + 256 * get_or buf (i + 1) 0

-- `copy_from_slice(&hdr[i..i + 6])`.
abbrev pub mac_at : List ℕ → ℕ → Mac
mac_at buf i = record {
  b0 = get_or buf i 0;
  b1 = get_or buf (i + 1) 0;
  b2 = get_or buf (i + 2) 0;
  b3 = get_or buf (i + 3) 0;
  b4 = get_or buf (i + 4) 0;
  b5 = get_or buf (i + 5) 0;
}

unfoldable pub parse : List ℕ → Option HeaderDigest
unfolding has_transmitter
parse hdr =
    if ltb (length hdr) header_len
    then none
    else let digest : HeaderDigest = record {
      frame_control = le16 hdr 0;
      addr1 = mac_at hdr 4;
      addr2 = mac_at hdr 10;
      addr3 = mac_at hdr 16;
      seq_ctrl = le16 hdr 22;
    } in
      if has_transmitter digest then some digest else none

-- `PROBE_FRAME_LEN`.
abbrev pub probe_frame_len : ℕ
probe_frame_len = 24 + 8

-- The bytes that `build_probe_frame` writes.
abbrev pub probe_bytes : Mac → Mac → List ℕ
probe_bytes src dst =
    (0x08 ∷ 0x00 ∷ 0x00 ∷ 0x00 ∷ [])
    ++ (mac_bytes dst
        ++ (mac_bytes src ++ (mac_bytes src ++ (0 ∷ 0 ∷ 0 ∷ 1 ∷ 2 ∷ 3 ∷ 4 ∷ 5 ∷ 6 ∷ 7 ∷ []))))

-- The number of bytes written, and the buffer after the call.
unfoldable pub build_probe_frame : Mac → Mac → List ℕ → ℕ × List ℕ
build_probe_frame src dst buf =
    if ltb (length buf) probe_frame_len
    then (0, buf)
    else (probe_frame_len, probe_bytes src dst ++ drop probe_frame_len buf)
