-- ===== src/Esp.antt =====
-- src/lib/csi/esp.rs: the vendor callback's argument as a `CsiFrame`, and
-- `CsiPacket::from_wifi_csi_info` of src/lib/csi/mod.rs.
-- The accessors of esp-radio's `WifiCsiInfo` are the fields of a record; a build has only those of
-- its own MAC generation. postcard's reader is a parameter.
pub mod Layouts
mod Tests
use esp_csi_rs.Base.{
  ℕ, ◌+◌, ◌*◌, ◌/◌, ◌%◌, ◌^◌, bit_or, Bool, true, false, not, ◌&&◌, Option, none, some, List, ◌==◌,
  ltb, if◌then◌else◌, length,
}
use esp_csi_rs.Base.Int.{ℤ}
use esp_csi_rs.Mac.{Mac}
use esp_csi_rs.Wire.{
  Bandwidth, Chip, CsiFrame, CsiPayload, HeaderDigest, LayoutId, PpduFormat, RxMeta, Secondary,
  SourceKind, VendorRx, max_csi_bytes,
}
use esp_csi_rs.Wire.Header.{parse}
use esp_csi_rs.Wire.Layout.Classify.{classify_classic, classify_c5}
use esp_csi_rs.Protocol.{ControlPacket, control_sequence_in}
use esp_csi_rs.Session.{Session, widen_timestamp, stimulus}
use esp_csi_rs.Packet.{CsiPacket, Device, new_packet}

-- What every MAC generation reports.
pub record Info : Type 0 where
  pub mac : Mac
  pub buf : List ℤ
  pub header : List ℕ
  pub payload : List ℕ
  pub timestamp_us : ℕ
  pub secondary_channel : Secondary
  pub first_word_invalid : Bool
  pub rssi : ℤ
  pub noise_floor : ℤ
  pub channel : ℕ
  pub rate : ℕ
  pub signal_length : ℕ
  pub rx_state : ℕ
  pub rx_sequence : ℕ

-- What the classic radios report besides.
pub record ClassicInfo : Type 0 where
  pub packet_mode : ℕ
  pub cwb : Bool
  pub space_time_block_code : ℕ
  pub modulation_coding_scheme : ℕ
  pub short_guide_interval : Bool
  pub antenna : ℕ
  pub not_sounding : Bool
  pub aggregation : Bool
  pub smoothing : Bool
  pub forward_error_correction_coding : Bool
  pub ampdu_count : ℕ

-- What the esp32c5 and the esp32c6 report besides; the last three only on the esp32c6.
pub record HeInfo : Type 0 where
  pub cur_bb_format : ℕ
  pub rx_channel_estimate_info_valid : Bool
  pub rx_channel_estimate_length : ℕ
  pub dump_length : ℕ
  pub is_group : Bool
  pub rx_end_state : ℕ
  pub rx_match1 : Bool
  pub rx_match2 : Bool
  pub rx_match3 : Bool
  pub he_siga1 : ℕ
  pub he_siga2 : ℕ
  pub rx_match0 : Bool
  pub he_sigb_length : ℕ
  pub cur_single_mpdu : Bool

-- The three builds of `rx_meta`.
pub data Radio : Type 0 where
  classic : ClassicInfo → Radio
  c5 c6 : HeInfo → Radio

-- `secondary`, the raw code.
abbrev pub secondary_code : Secondary → ℕ
secondary_code Secondary.none = 0
secondary_code Secondary.above = 1
secondary_code Secondary.below = 2

unfoldable pub classic_ppdu : ℕ → ℕ → PpduFormat
classic_ppdu sig_mode rate =
    if sig_mode == 0
    then if ltb rate 8 then PpduFormat.dsss else PpduFormat.non_ht
    else if sig_mode == 1
    then PpduFormat.ht
    else if sig_mode == 3
    then PpduFormat.vht
    else PpduFormat.unknown

abbrev pub ht_like : PpduFormat → Bool
ht_like PpduFormat.ht = true
ht_like PpduFormat.vht = true
ht_like _ = false

-- The spatial streams of an HT frame by its MCS; 1 otherwise.
abbrev pub spatial_streams : PpduFormat → ℕ → ℕ
spatial_streams PpduFormat.ht mcs = mcs / 8 + 1
spatial_streams _ mcs = 1

-- `rx_meta` of the classic radios.
unfoldable pub classic_meta : Info → ClassicInfo → ℕ → RxMeta × LayoutId
unfolding classic_ppdu
classic_meta info c timestamp_us =
    let ppdu = classic_ppdu c.packet_mode info.rate in
    let stbc = not (c.space_time_block_code == 0) in
    let meta : RxMeta = record {
      timestamp_us = timestamp_us;
      rssi = info.rssi;
      noise_floor = info.noise_floor;
      channel = info.channel;
      secondary = info.secondary_channel;
      bandwidth = some (if c.cwb then Bandwidth.mhz40 else Bandwidth.mhz20);
      ppdu = ppdu;
      mcs = if ht_like ppdu then some c.modulation_coding_scheme else none;
      stbc = some stbc;
      sgi = some c.short_guide_interval;
      n_rx = 1;
      n_ss = some (spatial_streams ppdu c.modulation_coding_scheme);
      antenna = some c.antenna;
      sig_len = info.signal_length;
      rx_state = info.rx_state;
      not_sounding = some c.not_sounding;
      aggregation = some c.aggregation;
      frame_seq = some info.rx_sequence;
      vendor =
          VendorRx.esp_classic info.rate c.packet_mode c.smoothing c.forward_error_correction_coding
            c.ampdu_count;
    } in
    (
      meta,
      classify_classic (secondary_code info.secondary_channel) c.packet_mode c.cwb stbc
          (length info.buf),
    )

unfoldable pub he_ppdu : ℕ → PpduFormat
he_ppdu bb =
    if bb == 0
    then PpduFormat.dsss
    else if bb == 1
    then PpduFormat.non_ht
    else if bb == 2
    then PpduFormat.ht
    else if bb == 3
    then PpduFormat.vht
    else if bb == 4
    then PpduFormat.he_su
    else if bb == 5
    then PpduFormat.he_mu
    else if bb == 6
    then PpduFormat.he_er_su
    else if bb == 7
    then PpduFormat.he_tb
    else if bb == 11
    then PpduFormat.vht_mu
    else PpduFormat.unknown

-- The arm for an unknown layout.
abbrev pub unknown_bandwidth : PpduFormat → Secondary → Option Bandwidth
unknown_bandwidth PpduFormat.he_su secondary = some Bandwidth.mhz20
unknown_bandwidth PpduFormat.he_mu secondary = some Bandwidth.mhz20
unknown_bandwidth PpduFormat.he_er_su secondary = some Bandwidth.mhz20
unknown_bandwidth PpduFormat.he_tb secondary = some Bandwidth.mhz20
unknown_bandwidth _ Secondary.none = some Bandwidth.mhz20
unknown_bandwidth _ _ = none

-- The `match` on the layout: bandwidth and STBC.
abbrev pub he_width : LayoutId → PpduFormat → Secondary → Option Bandwidth × Option Bool
he_width LayoutId.c5_ht40 ppdu secondary = (some Bandwidth.mhz40, some false)
he_width LayoutId.c5_ht40_stbc ppdu secondary = (some Bandwidth.mhz40, some true)
he_width LayoutId.c5_ht20_none_stbc ppdu secondary = (some Bandwidth.mhz20, some true)
he_width LayoutId.c5_ht20_below_stbc ppdu secondary = (some Bandwidth.mhz20, some true)
he_width LayoutId.c5_ht20_above_stbc ppdu secondary = (some Bandwidth.mhz20, some true)
he_width LayoutId.unknown ppdu secondary = (unknown_bandwidth ppdu secondary, none)
he_width LayoutId.c5_lltf_none ppdu secondary = (some Bandwidth.mhz20, none)
he_width LayoutId.c5_lltf_below ppdu secondary = (some Bandwidth.mhz20, none)
he_width LayoutId.c5_lltf_above ppdu secondary = (some Bandwidth.mhz20, none)
he_width _ ppdu secondary = (some Bandwidth.mhz20, some false)

abbrev bit_at : Bool → ℕ → ℕ
bit_at b i = if b then 2 ^ i else 0

-- `rx_meta` of the esp32c5 and the esp32c6; the flag tells the esp32c6.
unfoldable pub he_meta : Bool → Info → HeInfo → ℕ → RxMeta × LayoutId
unfolding he_ppdu
he_meta is_c6 info h timestamp_us =
    let ppdu = he_ppdu h.cur_bb_format in
    let layout =
      if is_c6
      then LayoutId.unknown
      else classify_c5 h.cur_bb_format (secondary_code info.secondary_channel) (length info.buf) in
    let width : Option Bandwidth × Option Bool = he_width layout ppdu info.secondary_channel in
    let matches =
      bit_or (bit_or (bit_at h.rx_match1 1) (bit_at h.rx_match2 2)) (bit_at h.rx_match3 3) in
    let meta : RxMeta = record {
      timestamp_us = timestamp_us;
      rssi = info.rssi;
      noise_floor = info.noise_floor;
      channel = info.channel;
      secondary = info.secondary_channel;
      bandwidth = width.0;
      ppdu = ppdu;
      mcs = none;
      stbc = width.1;
      sgi = none;
      n_rx = 1;
      n_ss = none;
      antenna = none;
      sig_len = info.signal_length;
      rx_state = info.rx_state;
      not_sounding = none;
      aggregation = none;
      frame_seq = some info.rx_sequence;
      vendor =
          VendorRx.esp_he info.rate h.cur_bb_format h.rx_channel_estimate_info_valid
            (h.rx_channel_estimate_length % 2 ^ 16) (h.dump_length % 2 ^ 16) h.is_group
            h.rx_end_state (if is_c6 then bit_or matches (bit_at h.rx_match0 0) else matches)
            h.he_siga1 h.he_siga2 (if is_c6 then h.he_sigb_length else 0)
            (is_c6 && h.cur_single_mpdu);
    } in
    (meta, layout)

unfoldable pub rx_meta : Info → Radio → ℕ → RxMeta × LayoutId
unfolding classic_meta he_meta
rx_meta info (Radio.classic c) timestamp_us = classic_meta info c timestamp_us
rx_meta info (Radio.c5 h) timestamp_us = he_meta false info h timestamp_us
rx_meta info (Radio.c6 h) timestamp_us = he_meta true info h timestamp_us

module _ (take_from_bytes : List ℕ → Option (ControlPacket × List ℕ)) where
  abbrev pub instance_in : Info → Session → Option ℕ
  unfolding control_sequence_in
  instance_in info s =
      if s.stimulus_controlled then control_sequence_in take_from_bytes info.payload else none

  -- `frame_from_esp`: the session context afterwards, and the frame.
  unfoldable pub frame_from_esp : Chip → Info → Radio → Session → Session × Option CsiFrame
  unfolding widen_timestamp rx_meta parse stimulus
  frame_from_esp chip info radio s =
      if ltb max_csi_bytes (length info.buf)
      then (s, none)
      else let (s', timestamp_us) = widen_timestamp (info.timestamp_us % 2 ^ 32) s in
        let (meta, layout) = rx_meta info radio timestamp_us in
        (
          s',
          some (record {
            meta = meta;
            stimulus = stimulus info.mac (instance_in info s') s';
            header = if s'.header_digest then parse info.header else none;
            payload = CsiPayload.esp_raw chip layout info.first_word_invalid info.buf;
          }),
        )

  -- `CsiPacket::from_wifi_csi_info`, at `now_us`.
  unfoldable pub from_wifi_csi_info :
      Device → ℕ → Info → Radio → Session → Session × Option CsiPacket
  unfolding frame_from_esp new_packet
  from_wifi_csi_info d now_us info radio s =
      let (s', frame) = frame_from_esp d.chip info radio s in
      elim frame [
        | none ↦ (s', none)
        | some f ↦ (let (s'', p) = new_packet d now_us SourceKind.esp_vendor f s' in (s'', some p))
      ]
