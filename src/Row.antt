-- ===== src/Row.antt =====
-- src/lib/csi/text_row.rs: the fields that the text formats print, by chip.
mod Tests
use esp_csi_rs.Base.{
  ℕ, ◌/◌, ◌%◌, ◌^◌, Bool, true, false, Option, none, some, List, [], length, if◌then◌else◌,
  unwrap_or,
}
use esp_csi_rs.Base.Int.{ℤ}
use esp_csi_rs.Mac.{Mac}
use esp_csi_rs.Wire.{Bandwidth, RxMeta, Secondary, VendorRx}
use esp_csi_rs.Packet.{CsiPacket, csi_data, packet_mac}
use esp_csi_rs.Config.{Build, as_u32}

abbrev pub secondary_code : Secondary → ℕ
secondary_code Secondary.none = 0
secondary_code Secondary.above = 1
secondary_code Secondary.below = 2

-- What `VendorRx::EspClassic` holds, or zeros.
pub record ClassicVendor : Type 0 where
  pub rate : ℕ
  pub sig_mode : ℕ
  pub smoothing : Bool
  pub fec : Bool
  pub ampdu : ℕ

abbrev pub classic_vendor : VendorRx → ClassicVendor
classic_vendor (VendorRx.esp_classic rate sig_mode smoothing fec_ldpc ampdu_cnt) = record {
  rate = rate;
  sig_mode = sig_mode;
  smoothing = smoothing;
  fec = fec_ldpc;
  ampdu = ampdu_cnt;
}
classic_vendor _ = record { rate = 0; sig_mode = 0; smoothing = false; fec = false; ampdu = 0 }

-- What `VendorRx::EspHe` holds, or zeros.
pub record HeVendor : Type 0 where
  pub rate : ℕ
  pub bb : ℕ
  pub est_vld : Bool
  pub est_len : ℕ
  pub dump_len : ℕ
  pub is_group : Bool
  pub rxend : ℕ
  pub rxmatch : ℕ
  pub sigb : ℕ
  pub single : Bool

abbrev pub he_vendor : VendorRx → HeVendor
he_vendor (VendorRx.esp_he rate bb vld est dump group rxend rxmatch a1 a2 sigb single) = record {
  rate = rate;
  bb = bb;
  est_vld = vld;
  est_len = est;
  dump_len = dump;
  is_group = group;
  rxend = rxend;
  rxmatch = rxmatch;
  sigb = sigb;
  single = single;
}
he_vendor _ = record {
  rate = 0;
  bb = 0;
  est_vld = false;
  est_len = 0;
  dump_len = 0;
  is_group = false;
  rxend = 0;
  rxmatch = 0;
  sigb = 0;
  single = false;
}

-- The fields of the classic chips.
pub record ClassicRow : Type 0 where
  pub sgi : ℕ
  pub secondary_channel : ℕ
  pub bandwidth : ℕ
  pub antenna : ℕ
  pub sig_mode : ℕ
  pub mcs : ℕ
  pub smoothing : ℕ
  pub not_sounding : ℕ
  pub aggregation : ℕ
  pub stbc : ℕ
  pub fec_coding : ℕ
  pub ampdu_cnt : ℕ

-- The fields that the esp32c5 and the esp32c6 share.
pub record AxRow : Type 0 where
  pub dump_len : ℕ
  pub cur_bb_format : ℕ
  pub rx_channel_estimate_info_vld : ℕ
  pub rx_channel_estimate_len : ℕ
  pub second : ℕ
  pub is_group : ℕ
  pub rxend_state : ℕ
  pub rxmatch3 : ℕ
  pub rxmatch2 : ℕ
  pub rxmatch1 : ℕ

pub data ChipRow : Type 0 where
  classic : ClassicRow → ChipRow
  ax6 : AxRow → (sigb_len cur_single_mpdu rxmatch0 : ℕ) → ChipRow
  ax5 : AxRow → ChipRow

-- `date_time` is never set by the crate: whether it is.
pub record TextRow : Type 0 where
  pub mac : Mac
  pub rssi : ℤ
  pub timestamp : ℕ
  pub rate : ℕ
  pub noise_floor : ℤ
  pub sig_len : ℕ
  pub rx_state : ℕ
  pub channel : ℕ
  pub date_time_set : Bool
  pub sequence_number : ℕ
  pub csi_data_len : ℕ
  pub samples : List ℤ
  pub by_chip : ChipRow

abbrev pub is_forty_mhz : Option Bandwidth → Bool
is_forty_mhz (some Bandwidth.mhz40) = true
is_forty_mhz _ = false

abbrev pub classic_row : RxMeta → ClassicRow
classic_row m = record {
  sgi = as_u32 (unwrap_or m.sgi false);
  secondary_channel = secondary_code m.secondary;
  bandwidth = as_u32 (is_forty_mhz m.bandwidth);
  antenna = unwrap_or m.antenna 0;
  sig_mode = (classic_vendor m.vendor).sig_mode;
  mcs = unwrap_or m.mcs 0;
  smoothing = as_u32 (classic_vendor m.vendor).smoothing;
  not_sounding = as_u32 (unwrap_or m.not_sounding true);
  aggregation = as_u32 (unwrap_or m.aggregation false);
  stbc = as_u32 (unwrap_or m.stbc false);
  fec_coding = as_u32 (classic_vendor m.vendor).fec;
  ampdu_cnt = (classic_vendor m.vendor).ampdu;
}

abbrev pub ax_row : RxMeta → AxRow
ax_row m =
    let v = he_vendor m.vendor in
    record {
      dump_len = v.dump_len;
      cur_bb_format = v.bb;
      rx_channel_estimate_info_vld = as_u32 v.est_vld;
      rx_channel_estimate_len = v.est_len;
      second = secondary_code m.secondary;
      is_group = as_u32 v.is_group;
      rxend_state = v.rxend;
      rxmatch3 = v.rxmatch / 2 ^ 3 % 2;
      rxmatch2 = v.rxmatch / 2 ^ 2 % 2;
      rxmatch1 = v.rxmatch / 2 % 2;
    }

abbrev pub chip_row : Build → RxMeta → ChipRow
chip_row Build.classic m = ChipRow.classic (classic_row m)
chip_row Build.ax6 m =
    let v = he_vendor m.vendor in ChipRow.ax6 (ax_row m) v.sigb (as_u32 v.single) (v.rxmatch % 2)
chip_row Build.ax5 m = ChipRow.ax5 (ax_row m)

abbrev pub row_rate : Build → VendorRx → ℕ
row_rate Build.classic v = (classic_vendor v).rate
row_rate _ v = (he_vendor v).rate

-- `TextRow::new`.
unfoldable pub text_row : Build → CsiPacket → TextRow
text_row build p =
    let m = p.frame.meta in
    record {
      mac = packet_mac p;
      rssi = m.rssi;
      timestamp = m.timestamp_us % 2 ^ 32;
      rate = row_rate build m.vendor;
      noise_floor = m.noise_floor;
      sig_len = m.sig_len;
      rx_state = m.rx_state;
      channel = m.channel;
      date_time_set = false;
      sequence_number = unwrap_or m.frame_seq 0;
      csi_data_len = length (csi_data p) % 2 ^ 16;
      samples = csi_data p;
      by_chip = chip_row build m;
    }
