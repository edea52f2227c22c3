-- ===== src/Mode.antt =====
-- The modes of src/lib/model.rs, with their configurations: the sniffer, the station and the access
-- point of src/lib/node.rs, and the emitter of src/lib/emitter/mod.rs.
-- esp-radio's `StationConfig` and `AccessPointConfig` are opaque: they are left out, and what the
-- access point repeats of its own is kept.
pub mod Leases
mod Tests
use esp_csi_rs.Base.{
  ℕ, zero, suc, ◌+◌, ◌-◌, min, max, Bool, true, false, Option, none, some, List, [], ◌∷◌, ◌++◌,
  if◌then◌else◌,
}
use esp_csi_rs.Mac.{Mac}
use esp_csi_rs.Model.{ReportTo, Reporting, SensingRole, SessionRole, Threshold, host_reporting}
use esp_csi_rs.EspNow.{
  EspNowConfig, SecondarySide, default_config, esp_now_sensing_role, with_channel, with_peer_mac,
  with_reporting, with_session,
}
use esp_csi_rs.Responder.{broadcast_address}

pub data SimplexEnd : Type 0 where
  source peer : SimplexEnd

pub record SimplexConfig : Type 0 where
  pub end : SimplexEnd
  pub inner : EspNowConfig

-- `SimplexConfig::source`, `peer`, `with_peer_mac`, `session_role`, `sensing_role` and `is_source`.
abbrev pub simplex_source : EspNowConfig → SimplexConfig
simplex_source c = record {
  end = SimplexEnd.source;
  inner = with_reporting Reporting.never (with_session SessionRole.initiator c);
}

abbrev pub simplex_peer : ℕ → SimplexConfig
simplex_peer channel = record {
  end = SimplexEnd.peer;
  inner =
      with_reporting host_reporting
        (with_session SessionRole.responder (with_channel channel default_config));
}

abbrev pub simplex_with_peer_mac : Mac → SimplexConfig → SimplexConfig
simplex_with_peer_mac mac c = record c { inner = with_peer_mac mac c.inner }

abbrev pub end_session_role : SimplexEnd → SessionRole
end_session_role SimplexEnd.source = SessionRole.initiator
end_session_role SimplexEnd.peer = SessionRole.responder

abbrev pub end_sensing_role : SimplexEnd → SensingRole
end_sensing_role SimplexEnd.source = SensingRole.transmitter
end_sensing_role SimplexEnd.peer = SensingRole.receiver

abbrev pub is_source_end : SimplexConfig → Bool
is_source_end c = elim c.end [ SimplexEnd.source ↦ true | SimplexEnd.peer ↦ false ]

pub record WifiSnifferConfig : Type 0 where
  pub mac_filter : Option Mac
  pub channel : ℕ
  pub reporting : Reporting

abbrev pub default_sniffer : WifiSnifferConfig
default_sniffer = record { mac_filter = none; channel = 1; reporting = host_reporting }

-- The sniffer's builder methods.
pub data SnifferCall : Type 0 where
  on_report : ReportTo → SnifferCall
  on_threshold : Threshold → SnifferCall
  on_decimation : ℕ → SnifferCall
  on_channel : ℕ → SnifferCall

abbrev pub sniffer_call : SnifferCall → WifiSnifferConfig → WifiSnifferConfig
sniffer_call (SnifferCall.on_report to) c = record c { reporting = Reporting.report to }
sniffer_call (SnifferCall.on_threshold t) c = record c { reporting = Reporting.threshold_based t }
sniffer_call (SnifferCall.on_decimation n) c = record c { reporting = Reporting.decimate (max n 1) }
sniffer_call (SnifferCall.on_channel channel) c = record c { channel = channel }

pub record WifiStationConfig : Type 0 where
  pub channel_hint : Option ℕ
  pub session : Option SessionRole
  pub reporting : Reporting

abbrev pub new_station : WifiStationConfig
new_station = record {
  channel_hint = none;
  session = some SessionRole.initiator;
  reporting = host_reporting;
}

-- `WifiStationConfig::session`, `reporting` and `with_channel_hint`.
abbrev pub station_session : Option SessionRole → WifiStationConfig → WifiStationConfig
station_session role c = record c { session = role }

abbrev pub station_reporting : Reporting → WifiStationConfig → WifiStationConfig
station_reporting reporting c = record c { reporting = reporting }

abbrev pub with_channel_hint : ℕ → WifiStationConfig → WifiStationConfig
with_channel_hint channel c = record c { channel_hint = some channel }

-- `WifiStationConfig::sensing_role`.
abbrev pub station_sensing_role : Option SessionRole → SensingRole
station_sensing_role (some SessionRole.initiator) = SensingRole.transmitter_receiver
station_sensing_role _ = SensingRole.receiver

-- `Ipv4Addr`, by its octets.
pub record Ipv4Addr : Type 0 where
  pub o0 : ℕ
  pub o1 : ℕ
  pub o2 : ℕ
  pub o3 : ℕ

pub record WifiApConfig : Type 0 where
  pub channel : ℕ
  pub secondary_channel : Option SecondarySide
  pub ap_ipv4 : Ipv4Addr
  pub lease_ipv4 : Ipv4Addr
  pub lease_count : ℕ
  pub serve_dhcp : Bool
  pub reporting : Reporting
  pub sync_burst : Bool

abbrev pub new_ap : ℕ → Option SecondarySide → WifiApConfig
new_ap channel secondary = record {
  channel = channel;
  secondary_channel = secondary;
  ap_ipv4 = record { o0 = 192; o1 = 168; o2 = 13; o3 = 1 };
  lease_ipv4 = record { o0 = 192; o1 = 168; o2 = 13; o3 = 2 };
  lease_count = 1;
  serve_dhcp = true;
  reporting = host_reporting;
  sync_burst = false;
}

-- `WifiApConfig::with_ipv4`, `with_lease_pool`, `with_dhcp_server` and `with_sync_burst`.
abbrev pub with_ipv4 : Ipv4Addr → Ipv4Addr → WifiApConfig → WifiApConfig
with_ipv4 ap lease c = record c { ap_ipv4 = ap; lease_ipv4 = lease }

abbrev pub with_lease_pool : ℕ → WifiApConfig → WifiApConfig
with_lease_pool count c = record c { lease_count = max count 1 }

abbrev pub with_dhcp_server : Bool → WifiApConfig → WifiApConfig
with_dhcp_server enabled c = record c { serve_dhcp = enabled }

abbrev pub with_sync_burst : Bool → WifiApConfig → WifiApConfig
with_sync_burst enabled c = record c { sync_burst = enabled }

-- `WifiApConfig::lease_ip_at` and `lease_pool`.
unfoldable pub lease_ip_at : WifiApConfig → ℕ → Ipv4Addr
lease_ip_at c index = record c.lease_ipv4 {
  o3 = min (c.lease_ipv4.o3 + min index (c.lease_count - 1)) 255;
}

-- `for i in 0..n`, from `i` on.
abbrev pub leases_from : WifiApConfig → ℕ → ℕ → List Ipv4Addr
unfolding lease_ip_at
leases_from c zero i = []
leases_from c (suc n) i = lease_ip_at c i ∷ leases_from c n (suc i)

unfoldable pub lease_pool : WifiApConfig → List Ipv4Addr
unfolding leases_from
lease_pool c = leases_from c (min c.lease_count 8) 0

pub data EmitterPhy : Type 0 where
  ht20 ht40_above ht40_below he20 : EmitterPhy

abbrev pub is_forty : EmitterPhy → Bool
is_forty EmitterPhy.ht40_above = true
is_forty EmitterPhy.ht40_below = true
is_forty _ = false

abbrev pub is_he : EmitterPhy → Bool
is_he EmitterPhy.he20 = true
is_he _ = false

pub record EmitterConfig : Type 0 where
  pub channel : ℕ
  pub phy : EmitterPhy
  pub dst_mac : Mac
  pub period_us : ℕ
  pub use_sta_if : Bool

abbrev pub new_emitter : ℕ → EmitterPhy → EmitterConfig
new_emitter channel phy = record {
  channel = channel;
  phy = phy;
  dst_mac = broadcast_address;
  period_us = 20_000;
  use_sta_if = true;
}

-- `EmitterConfig::with_dst_mac`, `with_period` and `with_ap_interface`.
abbrev pub with_dst_mac : Mac → EmitterConfig → EmitterConfig
with_dst_mac mac c = record c { dst_mac = mac }

abbrev pub with_period : ℕ → EmitterConfig → EmitterConfig
with_period period_us c = record c { period_us = period_us }

abbrev pub with_ap_interface : EmitterConfig → EmitterConfig
with_ap_interface c = record c { use_sta_if = false }

pub data Mode : Type 0 where
  esp_now : EspNowConfig → Mode
  esp_now_simplex : SimplexConfig → Mode
  sniffer : WifiSnifferConfig → Mode
  station : WifiStationConfig → Mode
  access_point : WifiApConfig → Mode
  emitter : EmitterConfig → Mode

-- `Mode::session_role`, `sensing_role` and `reporting`.
unfoldable pub session_role : Mode → Option SessionRole
session_role (Mode.esp_now c) = some c.session
session_role (Mode.esp_now_simplex c) = some (end_session_role c.end)
session_role (Mode.sniffer c) = none
session_role (Mode.station c) = c.session
session_role (Mode.access_point c) = some SessionRole.initiator
session_role (Mode.emitter c) = none

unfoldable pub sensing_role : Mode → SensingRole
sensing_role (Mode.esp_now c) = esp_now_sensing_role c
sensing_role (Mode.esp_now_simplex c) = end_sensing_role c.end
sensing_role (Mode.sniffer c) = SensingRole.receiver
sensing_role (Mode.station c) = station_sensing_role c.session
sensing_role (Mode.access_point c) = SensingRole.receiver
sensing_role (Mode.emitter c) = SensingRole.transmitter

unfoldable pub mode_reporting : Mode → Reporting
mode_reporting (Mode.esp_now c) = c.reporting
mode_reporting (Mode.esp_now_simplex c) = c.inner.reporting
mode_reporting (Mode.sniffer c) = c.reporting
mode_reporting (Mode.station c) = c.reporting
mode_reporting (Mode.access_point c) = c.reporting
mode_reporting (Mode.emitter c) = Reporting.never
