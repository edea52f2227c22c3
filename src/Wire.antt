-- ===== src/Wire.antt =====
-- src/lib/wire/mod.rs: the wire contract's types, and the functions on them that need no encoder.
-- A `u8` to `u64` is a natural number, an `i8` or `i16` an integer of `Base.Int`; a bounded
-- `heapless::Vec` is a list.
pub mod Header
pub mod Layout
pub mod Setup
mod Tests
use esp_csi_rs.Base.{ℕ, Bool, Option, List}
use esp_csi_rs.Base.Int.{ℤ}
use esp_csi_rs.Mac.{Mac}

-- `WIRE_VERSION`.
abbrev pub wire_version : ℕ
wire_version = 1

-- `MAX_CSI_BYTES`.
abbrev pub max_csi_bytes : ℕ
max_csi_bytes = 612

pub data SourceKind : Type 0 where
  esp_vendor ieee80211bf synthetic : SourceKind

pub record Envelope : Type 0 where
  pub version : ℕ
  pub node_id : Mac
  pub session_id : ℕ
  pub source : SourceKind
  pub stream_seq : ℕ

-- `Envelope::new`.
abbrev pub new_envelope : Mac → ℕ → SourceKind → ℕ → Envelope
new_envelope node session source seq = record {
  version = wire_version;
  node_id = node;
  session_id = session;
  source = source;
  stream_seq = seq;
}

pub data Chip : Type 0 where
  esp32 esp32_s2 esp32_s3 esp32_c3 esp32_c5 esp32_c6 : Chip

pub record SessionInfo : Type 0 where
  pub chip : Chip
  pub crate_version : List ℕ
  pub timestamp_us : ℕ
  pub epoch_unix_us : Option ℕ

pub data Secondary : Type 0 where
  none above below : Secondary

pub data Bandwidth : Type 0 where
  mhz20 mhz40 mhz80 mhz160 mhz320 : Bandwidth

pub data PpduFormat : Type 0 where
  unknown dsss non_ht ht vht vht_mu he_su he_mu he_er_su he_tb eht : PpduFormat

pub data Stimulus : Type 0 where
  controlled : (setup_id instance_id : ℕ) → (ta : Mac) → Stimulus
  ambient : (ta : Mac) → Stimulus
  observed : (ta : Mac) → (dialog_token : ℕ) → Stimulus

pub record HeaderDigest : Type 0 where
  pub frame_control : ℕ
  pub addr1 : Mac
  pub addr2 : Mac
  pub addr3 : Mac
  pub seq_ctrl : ℕ

pub data LayoutId : Type 0 where
  unknown : LayoutId
  classic_none_non_ht classic_none_ht20 classic_none_ht20_stbc : LayoutId
  classic_below_non_ht classic_below_ht20 classic_below_ht20_stbc : LayoutId
  classic_below_ht40 classic_below_ht40_stbc : LayoutId
  classic_above_non_ht classic_above_ht20 classic_above_ht20_stbc : LayoutId
  classic_above_ht40 classic_above_ht40_stbc : LayoutId
  c5_lltf_none c5_lltf_below c5_lltf_above : LayoutId
  c5_ht20_none c5_ht20_none_stbc c5_ht20_below c5_ht20_below_stbc : LayoutId
  c5_ht20_above c5_ht20_above_stbc c5_ht40 c5_ht40_stbc c5_he20_su : LayoutId

pub data CsiPayload : Type 0 where
  esp_raw :
      (chip : Chip) (layout : LayoutId) (first_word_invalid : Bool) (bytes : List ℤ) → CsiPayload
  grouped : (ng nb : ℕ) (sc_start : ℤ) (n_sc n_rx n_tx : ℕ) (report : List ℕ) → CsiPayload
  variation : (value : ℕ) → CsiPayload

pub data VendorRx : Type 0 where
  none : VendorRx
  esp_classic : (rate sig_mode : ℕ) (smoothing fec_ldpc : Bool) (ampdu_cnt : ℕ) → VendorRx
  esp_he :
      (rate cur_bb_format : ℕ) (estimate_valid : Bool) (estimate_len dump_len : ℕ) (is_group : Bool)
      (rxend_state rxmatch he_siga1 he_siga2 sigb_len : ℕ) (single_mpdu : Bool)
      → VendorRx

pub record RxMeta : Type 0 where
  pub timestamp_us : ℕ
  pub rssi : ℤ
  pub noise_floor : ℤ
  pub channel : ℕ
  pub secondary : Secondary
  pub bandwidth : Option Bandwidth
  pub ppdu : PpduFormat
  pub mcs : Option ℕ
  pub stbc : Option Bool
  pub sgi : Option Bool
  pub n_rx : ℕ
  pub n_ss : Option ℕ
  pub antenna : Option ℕ
  pub sig_len : ℕ
  pub rx_state : ℕ
  pub not_sounding : Option Bool
  pub aggregation : Option Bool
  pub frame_seq : Option ℕ
  pub vendor : VendorRx

pub record CsiFrame : Type 0 where
  pub meta : RxMeta
  pub stimulus : Stimulus
  pub header : Option HeaderDigest
  pub payload : CsiPayload

pub data Body : Type 0 where
  csi : CsiFrame → Body
  session : SessionInfo → Body

abbrev stimulus_ta : Stimulus → Mac
stimulus_ta (Stimulus.controlled setup_id instance_id ta) = ta
stimulus_ta (Stimulus.ambient ta) = ta
stimulus_ta (Stimulus.observed ta dialog_token) = ta

-- `CsiFrame::transmitter`.
unfoldable pub transmitter : CsiFrame → Option Mac
transmitter f = elim f.header [
  | Option.none ↦ Option.some (stimulus_ta f.stimulus)
  | Option.some h ↦ Option.some h.addr2
]
