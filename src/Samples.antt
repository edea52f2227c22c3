-- ===== src/Samples.antt =====
-- Concrete data for the tests.
use esp_csi_rs.Base.{
  ℕ, Bool, true, false, ◌||◌, Option, none, some, List, [], ◌∷◌, ◌==◌, if◌then◌else◌, ltb, length,
  replicate, arith,
}
use esp_csi_rs.Base.Int.{ℤ, pos}
use esp_csi_rs.Mac.{Mac, IsMac, mac_eq}
use esp_csi_rs.Wire.{
  Chip, CsiFrame, CsiPayload, LayoutId, PpduFormat, RxMeta, Secondary, SourceKind, Stimulus,
  VendorRx,
}
use esp_csi_rs.Packet.{CsiPacket, Device}
use esp_csi_rs.Esp.{Info, ClassicInfo}
use esp_csi_rs.EspNow.{EspNowConfig, EspNowDriver, default_config, with_peer_mac}
use esp_csi_rs.Protocol.{ControlPacket}
use esp_csi_rs.Pool.{PoolFrame}

abbrev pub board : Mac
board = record { b0 = 0x24; b1 = 0x6F; b2 = 0x28; b3 = 1; b4 = 2; b5 = 3 }

abbrev pub peer : Mac
peer = record { b0 = 0x24; b1 = 0x6F; b2 = 0x28; b3 = 9; b4 = 8; b5 = 7 }

pub board-IsMac : IsMac board
board-IsMac = record {
  r0 = omega arith;
  r1 = omega arith;
  r2 = omega arith;
  r3 = omega arith;
  r4 = omega arith;
  r5 = omega arith;
}

pub peer-IsMac : IsMac peer
peer-IsMac = record {
  r0 = omega arith;
  r1 = omega arith;
  r2 = omega arith;
  r3 = omega arith;
  r4 = omega arith;
  r5 = omega arith;
}

abbrev pub device : Device
device = record { base_mac = board; chip = Chip.esp32_s3; crate_version = [] }

-- A buffer of 128 bytes: the classic non-HT layout without a secondary channel.
abbrev pub buffer : List ℤ
buffer = replicate 128 (pos 3)

abbrev pub metadata : RxMeta
metadata = record {
  timestamp_us = 1000;
  rssi = pos 0;
  noise_floor = pos 0;
  channel = 6;
  secondary = Secondary.none;
  bandwidth = none;
  ppdu = PpduFormat.non_ht;
  mcs = none;
  stbc = none;
  sgi = none;
  n_rx = 1;
  n_ss = none;
  antenna = none;
  sig_len = 30;
  rx_state = 0;
  not_sounding = none;
  aggregation = none;
  frame_seq = some 5;
  vendor = VendorRx.none;
}

abbrev pub measured : CsiFrame
measured = record {
  meta = metadata;
  stimulus = Stimulus.ambient peer;
  header = none;
  payload = CsiPayload.esp_raw Chip.esp32_s3 LayoutId.classic_none_non_ht false buffer;
}

abbrev pub packet : ℕ → CsiPacket
packet seq = record {
  envelope = record {
    version = 1;
    node_id = board;
    session_id = 7;
    source = SourceKind.esp_vendor;
    stream_seq = seq;
  };
  frame = measured;
  session = none;
}

abbrev pub captured : Info
captured = record {
  mac = peer;
  buf = buffer;
  header = [];
  payload = [];
  timestamp_us = 1000;
  secondary_channel = Secondary.none;
  first_word_invalid = false;
  rssi = pos 0;
  noise_floor = pos 0;
  channel = 6;
  rate = 11;
  signal_length = 30;
  rx_state = 0;
  rx_sequence = 5;
}

abbrev pub legacy : ClassicInfo
legacy = record {
  packet_mode = 0;
  cwb = false;
  space_time_block_code = 0;
  modulation_coding_scheme = 0;
  short_guide_interval = false;
  antenna = 0;
  not_sounding = true;
  aggregation = false;
  smoothing = false;
  forward_error_correction_coding = false;
  ampdu_count = 0;
}

-- A driver that lists its peers and takes at most two.
abbrev pub listed : Mac → List Mac → Bool
listed m [] = false
listed m (k ∷ ks) = mac_eq k m || listed m ks

abbrev pub driver : EspNowDriver (List Mac)
driver = record {
  peer_exists = listed;
  add_peer = λ p ks. if ltb (length ks) 2 then (p.peer_address ∷ ks, true) else (ks, false);
  set_peer_rate = λ m mode rate ks. ks;
  set_channel = λ n ks. ks;
}

-- Manual pairing with the peer.
abbrev pub paired : EspNowConfig
paired = with_peer_mac peer default_config

-- A fixed-width encoding in postcard's place: the flag, then the sequence number.
abbrev pub read_control : List ℕ → Option (ControlPacket × List ℕ)
read_control [] = none
read_control (flag ∷ []) = none
read_control (flag ∷ n ∷ rest) =
    some (record { initiator_reports = flag == 1; sequence_number = n }, rest)

abbrev pub write_control : ControlPacket → ℕ → Option (List ℕ)
write_control p room = some ((if p.initiator_reports then 1 else 0) ∷ p.sequence_number ∷ [])

-- A frame in the pool.
abbrev pub frame : Mac → List ℕ → PoolFrame
frame src bytes = record {
  info = record { src_address = src };
  data_buf = bytes;
  data_len = length bytes;
}
