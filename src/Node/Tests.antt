-- ===== src/Node/Tests.antt =====
-- Examples on measurement setups.
use esp_csi_rs.Base.{◌/◌, ◌≡◌, refl, false, none, some, is_none, if◌then◌else◌, arith}
use esp_csi_rs.Wire.{Bandwidth, PpduFormat}
use esp_csi_rs.Wire.Setup.{
  MeasurementSetup, accept_all, any_format, excludes_legacy, is_any, new_setup, new_stimulus,
  only_he, rate_hz, with_acquisition, with_format, with_stimulus,
}
use esp_csi_rs.Config.{Build}
use esp_csi_rs.Delivery.{new_delivery}
use esp_csi_rs.Mode.{EmitterPhy, Mode, default_sniffer, new_emitter, new_station}
use esp_csi_rs.Node.{
  CsiNode, SetupError, apply_measurement_setup, check_setup, configured_bandwidth, new_node,
  new_node_setup, sounds, to_wire, with_id, with_periodicity_hz,
}
use esp_csi_rs.Node.Apply.{apply_measurement_setup-can_honour, apply_measurement_setup-to_wire}
use esp_csi_rs.Node.Offers.{can_honour}

abbrev station : CsiNode
station = new_node (Mode.station new_station) new_node_setup

abbrev sniffer : CsiNode
sniffer = new_node (Mode.sniffer default_sniffer) new_node_setup

abbrev emitter : CsiNode
emitter = new_node (Mode.emitter (new_emitter 6 EmitterPhy.ht20)) new_node_setup

abbrev sounding_setup : MeasurementSetup
sounding_setup = with_stimulus (new_setup 7) (new_stimulus 10_000 Bandwidth.mhz20)

abbrev he_setup : MeasurementSetup
he_setup =
    with_acquisition (new_setup 7)
      (record accept_all { ppdu_formats = with_format any_format PpduFormat.he_su })

sniffer_test :
    (apply_measurement_setup Build.ax6 sounding_setup
      (record { node = sniffer; delivery = new_delivery })).0
    ≡ some SetupError.no_stimulus
unfolding apply_measurement_setup check_setup is_any only_he excludes_legacy configured_bandwidth
    sounds
sniffer_test = refl

emitter_test :
    (apply_measurement_setup Build.ax6 sounding_setup
      (record { node = emitter; delivery = new_delivery })).0
    ≡ none
unfolding apply_measurement_setup check_setup is_any only_he excludes_legacy configured_bandwidth
    sounds rate_hz
emitter_test = refl

he_test : can_honour Build.classic (Mode.sniffer default_sniffer) he_setup ≡ false
unfolding can_honour only_he is_any excludes_legacy with_format
he_test = refl

-- A periodicity above 1000 Hz may come back as another one.
fast_test : rate_hz (new_stimulus (1_000_000 / 1500) Bandwidth.mhz20) ≡ 1501
unfolding rate_hz
fast_test = refl

apply_measurement_setup-to_wire_example :
    apply_measurement_setup Build.classic
      (to_wire (with_periodicity_hz 300 (with_id 7 new_node_setup)))
      (record { node = station; delivery = new_delivery })
    ≡ (
      none,
      record {
        node = record station { setup = with_periodicity_hz 300 (with_id 7 new_node_setup) };
        delivery = new_delivery;
      },
    )
unfolding sounds configured_bandwidth
apply_measurement_setup-to_wire_example =
    apply_measurement_setup-to_wire Build.classic (with_id 7 new_node_setup) 300 station
      new_delivery (omega arith) (omega arith) refl refl refl

apply_measurement_setup-can_honour_example :
    (is_none
        (apply_measurement_setup Build.classic he_setup
          (record { node = sniffer; delivery = new_delivery })).0
      ≡ can_honour Build.classic sniffer.mode he_setup)
    × ((if can_honour Build.classic sniffer.mode he_setup
          then record { node = sniffer; delivery = new_delivery }
          else (apply_measurement_setup Build.classic he_setup
              (record { node = sniffer; delivery = new_delivery })).1)
        ≡ record { node = sniffer; delivery = new_delivery })
apply_measurement_setup-can_honour_example =
    apply_measurement_setup-can_honour Build.classic he_setup
      (record { node = sniffer; delivery = new_delivery })
