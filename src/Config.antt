-- ===== src/Config.antt =====
-- src/lib/config/csi.rs, with `build_csi_config` and `c5_bitfield_workaround` of
-- src/lib/csi/delivery.rs: what the radio is asked to acquire, for the classic chips, the esp32c6 and
-- the esp32c5. esp-radio's `CsiConfig` has the same fields and shares the type.
pub mod Slots
mod Tests
use esp_csi_rs.Base.{ℕ, Bool, true, false, Option, none, some, if◌then◌else◌}

-- The builds, by chip.
pub data Build : Type 0 where
  classic ax6 ax5 : Build

pub record ClassicConfig : Type 0 where
  pub lltf_en : Bool
  pub htltf_en : Bool
  pub stbc_htltf2_en : Bool
  pub ltf_merge_en : Bool
  pub channel_filter_en : Bool
  pub manu_scale : Bool
  pub shift : ℕ
  pub dump_ack_en : Bool

-- The twelve fields that both 802.11ax chips have.
pub record AxConfig : Type 0 where
  pub enable : ℕ
  pub acquire_csi_legacy : ℕ
  pub acquire_csi_ht20 : ℕ
  pub acquire_csi_ht40 : ℕ
  pub acquire_csi_su : ℕ
  pub acquire_csi_mu : ℕ
  pub acquire_csi_dcm : ℕ
  pub acquire_csi_beamformed : ℕ
  pub acquire_csi_he_stbc : ℕ
  pub val_scale_cfg : ℕ
  pub dump_ack_en : ℕ
  pub reserved : ℕ

-- The esp32c5 has two more.
pub record Ax5Config : Type 0 where
  pub shared : AxConfig
  pub acquire_csi_force_lltf : Bool
  pub acquire_csi_vht : Bool

pub data CsiConfig : Type 0 where
  classic : ClassicConfig → CsiConfig
  ax6 : AxConfig → CsiConfig
  ax5 : Ax5Config → CsiConfig

abbrev pub default_classic : ClassicConfig
default_classic = record {
  lltf_en = true;
  htltf_en = true;
  stbc_htltf2_en = true;
  ltf_merge_en = true;
  channel_filter_en = false;
  manu_scale = false;
  shift = 0;
  dump_ack_en = false;
}

abbrev pub default_ax : ℕ → AxConfig
default_ax reserved = record {
  enable = 1;
  acquire_csi_legacy = 1;
  acquire_csi_ht20 = 1;
  acquire_csi_ht40 = 1;
  acquire_csi_su = 1;
  acquire_csi_mu = 1;
  acquire_csi_dcm = 1;
  acquire_csi_beamformed = 1;
  acquire_csi_he_stbc = 2;
  val_scale_cfg = 2;
  dump_ack_en = 1;
  reserved = reserved;
}

abbrev pub default_ax5 : Ax5Config
default_ax5 = record {
  shared = default_ax 0;
  acquire_csi_force_lltf = true;
  acquire_csi_vht = true;
}

-- `CsiConfig::default`.
abbrev pub default_csi : Build → CsiConfig
default_csi Build.classic = CsiConfig.classic default_classic
default_csi Build.ax6 = CsiConfig.ax6 (default_ax 19)
default_csi Build.ax5 = CsiConfig.ax5 default_ax5

-- `CsiConfig::he20`, which the classic chips do not have.
abbrev pub he20_ax : AxConfig → AxConfig
he20_ax c = record c {
  acquire_csi_legacy = 0;
  acquire_csi_ht20 = 0;
  acquire_csi_ht40 = 0;
  dump_ack_en = 0;
}

unfoldable pub he20_csi : Build → Option CsiConfig
he20_csi Build.classic = none
he20_csi Build.ax6 = some (CsiConfig.ax6 (he20_ax (default_ax 19)))
he20_csi Build.ax5 = some (
    CsiConfig.ax5 (record {
      shared = he20_ax (default_ax 0);
      acquire_csi_force_lltf = false;
      acquire_csi_vht = false;
    }))

abbrev pub as_u32 : Bool → ℕ
as_u32 b = if b then 1 else 0

-- `c5_bitfield_workaround`.
unfoldable pub c5_bitfield_workaround : Ax5Config → Ax5Config
c5_bitfield_workaround want = record {
  shared = record {
    enable = want.shared.enable;
    acquire_csi_legacy = want.shared.acquire_csi_legacy;
    acquire_csi_ht20 = as_u32 want.acquire_csi_force_lltf;
    acquire_csi_ht40 = want.shared.acquire_csi_ht20;
    acquire_csi_su = want.shared.acquire_csi_ht40;
    acquire_csi_mu = as_u32 want.acquire_csi_vht;
    acquire_csi_dcm = want.shared.acquire_csi_su;
    acquire_csi_beamformed = want.shared.acquire_csi_mu;
    acquire_csi_he_stbc = want.shared.acquire_csi_dcm;
    val_scale_cfg = want.shared.acquire_csi_beamformed;
    dump_ack_en = want.shared.acquire_csi_he_stbc;
    reserved = want.shared.val_scale_cfg;
  };
  acquire_csi_force_lltf = false;
  acquire_csi_vht = false;
}
