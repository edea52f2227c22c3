-- ===== src/EspNow.antt =====
-- src/lib/esp_now_config.rs, src/lib/espnow_phy.rs and `IOTaskConfig` of src/lib/node.rs: the
-- configuration of the ESP-NOW modes and the PHY that a node forces on its peers.
-- A `WifiPhyRate` of esp-radio stands as its discriminant, ESP-IDF's `wifi_phy_rate_t`.
use esp_csi_rs.Base.{ℕ, Bool, true, false, ◌&&◌, Option, none, some, if◌then◌else◌, leb, is_some}
use esp_csi_rs.Mac.{Mac}
use esp_csi_rs.Model.{SessionRole, SensingRole, Reporting, host_reporting}

-- `SecondaryChannel`.
pub data SecondarySide : Type 0 where
  above below : SecondarySide

pub record EspNowConfig : Type 0 where
  pub phy_rate : ℕ
  pub channel : ℕ
  pub peer_mac : Option Mac
  pub secondary_channel : Option SecondarySide
  pub force_phy : Bool
  pub he20 : Bool
  pub session : SessionRole
  pub reporting : Reporting

-- `EspNowConfig::default`, at the discriminants of `RateMcs0Lgi` and, below, `RateMcs7Lgi`.
abbrev pub mcs0_lgi : ℕ
mcs0_lgi = 16

abbrev pub mcs7_lgi : ℕ
mcs7_lgi = 23

abbrev pub default_config : EspNowConfig
default_config = record {
  phy_rate = mcs0_lgi;
  channel = 1;
  peer_mac = none;
  secondary_channel = none;
  force_phy = false;
  he20 = false;
  session = SessionRole.initiator;
  reporting = host_reporting;
}

-- The builder methods.
abbrev pub with_channel : ℕ → EspNowConfig → EspNowConfig
with_channel channel c = record c { channel = channel }

abbrev pub with_phy_rate : ℕ → EspNowConfig → EspNowConfig
with_phy_rate rate c = record c { phy_rate = rate; force_phy = true }

abbrev pub with_peer_mac : Mac → EspNowConfig → EspNowConfig
with_peer_mac mac c = record c { peer_mac = some mac }

abbrev pub with_ht40 : SecondarySide → EspNowConfig → EspNowConfig
with_ht40 side c = record c { secondary_channel = some side; force_phy = true }

abbrev pub with_he20 : EspNowConfig → EspNowConfig
with_he20 c = record c { he20 = true; secondary_channel = none; force_phy = true }

abbrev pub with_session : SessionRole → EspNowConfig → EspNowConfig
with_session role c = record c { session = role }

abbrev pub with_reporting : Reporting → EspNowConfig → EspNowConfig
with_reporting reporting c = record c { reporting = reporting }

-- `EspNowConfig::fast_default`.
abbrev pub fast_default : EspNowConfig
fast_default = with_phy_rate mcs7_lgi default_config

-- `EspNowConfig::sensing_role`.
abbrev pub esp_now_sensing_role : EspNowConfig → SensingRole
esp_now_sensing_role c = SensingRole.transmitter_receiver

pub record PeerPhy : Type 0 where
  pub rate : ℕ
  pub secondary : Option SecondarySide
  pub he20 : Bool

abbrev pub peer_phy : EspNowConfig → PeerPhy
peer_phy c = record { rate = c.phy_rate; secondary = c.secondary_channel; he20 = c.he20 }

-- `PhyMode`.
pub data PhyMode : Type 0 where
  he20 ht40 ht20 dsss ofdm : PhyMode

-- `PeerPhy::phy_mode`; `has_ax` says that the chip is an esp32c5 or an esp32c6.
unfoldable pub phy_mode : Bool → PeerPhy → PhyMode
phy_mode has_ax p =
    if leb 16 p.rate && leb p.rate 35
    then if has_ax && p.he20
      then PhyMode.he20
      else if is_some p.secondary
      then PhyMode.ht40
      else PhyMode.ht20
    else if leb p.rate 7
    then PhyMode.dsss
    else PhyMode.ofdm

pub record IoTaskConfig : Type 0 where
  pub tx_enabled : Bool
  pub rx_enabled : Bool

-- `PeerInfo`, as far as the nodes fill it.
pub record PeerInfo : Type 0 where
  pub peer_address : Mac
  pub channel : ℕ

-- esp-radio's ESP-NOW driver as far as pairing uses it: `peer_exists`, `add_peer`, which may
-- refuse, `set_peer_rate`, whose refusal is only logged, and `set_channel`, which is unwrapped.
pub record EspNowDriver (D : Type 0) : Type 0 where
  pub peer_exists : Mac → D → Bool
  pub add_peer : PeerInfo → D → D × Bool
  pub set_peer_rate : Mac → PhyMode → ℕ → D → D
  pub set_channel : ℕ → D → D

-- What `send_async` gives: out of memory and a failed send are told apart from other errors.
pub data SendResult : Type 0 where
  sent busy failed : SendResult
