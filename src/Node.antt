-- ===== src/Node.antt =====
-- src/lib/measurement.rs and the measurement setup of a `CsiNode` in src/lib/node.rs.
-- A node's hardware, protocol and radio profile are left out: nothing here reads them. The static
-- filters that a setup changes are those of `Delivery`.
pub mod Offers
pub mod Apply
mod Tests
use esp_csi_rs.Base.{
  ℕ, ◌/◌, max, Bool, true, false, not, ◌&&◌, ◌||◌, Option, none, some, List, [], ◌∷◌, ◌==◌,
  if◌then◌else◌, is_some,
}
use esp_csi_rs.Mac.{Mac, mac_eq}
use esp_csi_rs.Model.{SessionRole}
use esp_csi_rs.Wire.{Bandwidth}
use esp_csi_rs.Wire.Setup.{
  MeasurementSetup, AcquisitionFilter, PpduSet, ReportType, StimulusParams, accept_all,
  excludes_legacy, is_any, new_setup, new_stimulus, only_he, rate_hz, with_acquisition,
  with_stimulus,
}
use esp_csi_rs.Config.{AxConfig, Ax5Config, Build, CsiConfig, default_csi, he20_csi}
use esp_csi_rs.Delivery.{Delivery, set_csi_min_sig_mode, set_csi_peer_filter}
use esp_csi_rs.EspNow.{EspNowConfig, IoTaskConfig, with_channel}
use esp_csi_rs.Mode.{
  EmitterConfig, EmitterPhy, Mode, SimplexConfig, WifiApConfig, WifiSnifferConfig,
  WifiStationConfig, is_forty, is_source_end, with_channel_hint, with_period,
}

-- `MeasurementSetup` of src/lib/measurement.rs.
pub record NodeSetup : Type 0 where
  pub id : ℕ
  pub periodicity_hz : Option ℕ
  pub bandwidth : Option Bandwidth
  pub acquisition : Option CsiConfig

-- `MeasurementSetup::new`, `periodicity_hz`, `bandwidth`, `acquisition` and `id`.
abbrev pub new_node_setup : NodeSetup
new_node_setup = record { id = 0; periodicity_hz = none; bandwidth = none; acquisition = none }

abbrev pub with_periodicity_hz : ℕ → NodeSetup → NodeSetup
with_periodicity_hz hz s = record s { periodicity_hz = some hz }

abbrev pub with_bandwidth : Bandwidth → NodeSetup → NodeSetup
with_bandwidth bandwidth s = record s { bandwidth = some bandwidth }

abbrev pub with_csi_config : CsiConfig → NodeSetup → NodeSetup
with_csi_config acquisition s = record s { acquisition = some acquisition }

abbrev pub with_id : ℕ → NodeSetup → NodeSetup
with_id id s = record s { id = id }

abbrev pub bandwidth_or_20 : Option Bandwidth → Bandwidth
bandwidth_or_20 none = Bandwidth.mhz20
bandwidth_or_20 (some bandwidth) = bandwidth

-- `From<&MeasurementSetup>`.
abbrev pub stimulus_of : Option Bandwidth → Option ℕ → MeasurementSetup → MeasurementSetup
stimulus_of bandwidth none wire = wire
stimulus_of bandwidth (some hz) wire =
    with_stimulus wire (new_stimulus (1_000_000 / max hz 1) (bandwidth_or_20 bandwidth))

unfoldable pub to_wire : NodeSetup → MeasurementSetup
to_wire s =
    stimulus_of s.bandwidth s.periodicity_hz
      (with_acquisition (new_setup s.id) (record accept_all { bandwidth = s.bandwidth }))

pub record CsiNode : Type 0 where
  pub mode : Mode
  pub io_tasks : IoTaskConfig
  pub setup : NodeSetup
  pub flood_unsolicited_reply : Bool

-- `CsiNode::new`.
abbrev pub new_node : Mode → NodeSetup → CsiNode
new_node mode setup = record {
  mode = mode;
  io_tasks = record { tx_enabled = true; rx_enabled = true };
  setup = setup;
  flood_unsolicited_reply = false;
}

abbrev pub emitter_config : Mode → Option EmitterConfig
emitter_config (Mode.emitter c) = some c
emitter_config _ = none

abbrev pub width_of : Bool → Option Bandwidth
width_of forty = some (if forty then Bandwidth.mhz40 else Bandwidth.mhz20)

unfoldable pub configured_bandwidth : Mode → Option Bandwidth
configured_bandwidth (Mode.esp_now c) = width_of (is_some c.secondary_channel)
configured_bandwidth (Mode.esp_now_simplex c) = width_of (is_some c.inner.secondary_channel)
configured_bandwidth (Mode.access_point c) = width_of (is_some c.secondary_channel)
configured_bandwidth (Mode.emitter c) = width_of (is_forty c.phy)
configured_bandwidth (Mode.station c) = none
configured_bandwidth (Mode.sniffer c) = none

unfoldable pub set_mode_channel : ℕ → Mode → Mode
set_mode_channel ch (Mode.esp_now c) = Mode.esp_now (record c { channel = ch })
set_mode_channel ch (Mode.esp_now_simplex c) =
    Mode.esp_now_simplex (record c { inner = with_channel ch c.inner })
set_mode_channel ch (Mode.sniffer c) = Mode.sniffer (record c { channel = ch })
set_mode_channel ch (Mode.station c) = Mode.station (record c { channel_hint = some ch })
set_mode_channel ch (Mode.access_point c) = Mode.access_point (record c { channel = ch })
set_mode_channel ch (Mode.emitter c) = Mode.emitter (record c { channel = ch })

abbrev pub is_initiator : SessionRole → Bool
is_initiator SessionRole.initiator = true
is_initiator SessionRole.responder = false

abbrev pub some_initiator : Option SessionRole → Bool
some_initiator none = false
some_initiator (some role) = is_initiator role

-- `sounds` of `apply_measurement_setup`.
unfoldable pub sounds : Mode → Bool
sounds (Mode.esp_now c) = is_initiator c.session
sounds (Mode.esp_now_simplex c) = is_source_end c
sounds (Mode.station c) = some_initiator c.session
sounds (Mode.access_point c) = true
sounds (Mode.emitter c) = true
sounds (Mode.sniffer c) = false

-- The parameter that a `SetupError` names.
pub data SetupParameter : Type 0 where
  bandwidth ppdu_formats report ng_nb trigger_based responders : SetupParameter

pub data SetupError : Type 0 where
  no_stimulus : SetupError
  unsupported_acquisition : SetupParameter → SetupError
  unsupported_stimulus : SetupParameter → SetupError

abbrev pub bandwidth_code : Bandwidth → ℕ
bandwidth_code Bandwidth.mhz20 = 0
bandwidth_code Bandwidth.mhz40 = 1
bandwidth_code Bandwidth.mhz80 = 2
bandwidth_code Bandwidth.mhz160 = 3
bandwidth_code Bandwidth.mhz320 = 4

-- `width.is_some_and(|w| w != want)`, and its form for an optional `want`.
abbrev pub other_width : Option Bandwidth → Bandwidth → Bool
other_width none want = false
other_width (some have) want = not (bandwidth_code have == bandwidth_code want)

abbrev pub other_widths : Option Bandwidth → Option Bandwidth → Bool
other_widths width none = false
other_widths width (some want) = other_width width want

abbrev pub is_ax : Build → Bool
is_ax Build.classic = false
is_ax _ = true

abbrev pub is_raw : ReportType → Bool
is_raw ReportType.raw = true
is_raw ReportType.grouped = false

-- What the checks of `apply_measurement_setup` find: its first error, or the `filter` and the `rate`
-- that it goes on with.
pub data Checked : Type 0 where
  refused : SetupError → Checked
  accepted : Option Mac → Option ℕ → Checked

-- The match on `responders`.
abbrev pub join_responder : Option Mac → List Mac → ℕ → Checked
join_responder filter [] hz = Checked.accepted filter (some hz)
join_responder none (one ∷ []) hz = Checked.accepted (some one) (some hz)
join_responder (some t) (one ∷ []) hz =
    if mac_eq t one
    then Checked.accepted (some one) (some hz)
    else Checked.refused (SetupError.unsupported_stimulus SetupParameter.responders)
join_responder filter (one ∷ two ∷ rest) hz =
    Checked.refused (SetupError.unsupported_stimulus SetupParameter.responders)

abbrev pub check_stimulus : Bool → Option Bandwidth → Option Mac → Option StimulusParams → Checked
check_stimulus sounding width filter none = Checked.accepted filter none
check_stimulus sounding width filter (some st) =
    if not sounding
    then Checked.refused SetupError.no_stimulus
    else if not (is_raw st.report)
    then Checked.refused (SetupError.unsupported_stimulus SetupParameter.report)
    else if not (st.ng == 1) || not (st.nb == 8)
    then Checked.refused (SetupError.unsupported_stimulus SetupParameter.ng_nb)
    else if st.trigger_based
    then Checked.refused (SetupError.unsupported_stimulus SetupParameter.trigger_based)
    else if other_width width st.bandwidth
    then Checked.refused (SetupError.unsupported_stimulus SetupParameter.bandwidth)
    else join_responder filter st.responders (rate_hz st)

unfoldable pub check_setup : Build → Mode → MeasurementSetup → Checked
check_setup build mode setup =
    let formats = setup.acquisition.ppdu_formats in
    let width = configured_bandwidth mode in
    if other_widths width setup.acquisition.bandwidth
    then Checked.refused (SetupError.unsupported_acquisition SetupParameter.bandwidth)
    else if only_he formats && not (is_ax build)
    then Checked.refused (SetupError.unsupported_acquisition SetupParameter.ppdu_formats)
    else if (not (is_any formats) && not (only_he formats)) && not (excludes_legacy formats)
    then Checked.refused (SetupError.unsupported_acquisition SetupParameter.ppdu_formats)
    else check_stimulus (sounds mode) width setup.acquisition.transmitter setup.stimulus

-- The node and the static filters.
pub record Applied : Type 0 where
  pub node : CsiNode
  pub delivery : Delivery

abbrev pub apply_channel : Option ℕ → CsiNode → CsiNode
apply_channel none n = n
apply_channel (some ch) n = record n { mode = set_mode_channel ch n.mode }

abbrev pub apply_filter : Option Mac → Delivery → Delivery
apply_filter none d = d
apply_filter (some mac) d = set_csi_peer_filter mac d

-- `acquire_csi_legacy = 0`, and on the esp32c5 `acquire_csi_force_lltf = false`.
abbrev pub without_legacy : CsiConfig → CsiConfig
without_legacy (CsiConfig.classic c) = CsiConfig.classic c
without_legacy (CsiConfig.ax6 c) = CsiConfig.ax6 (record c { acquire_csi_legacy = 0 })
without_legacy (CsiConfig.ax5 c) = CsiConfig.ax5 (record c {
  shared = record c.shared { acquire_csi_legacy = 0 };
  acquire_csi_force_lltf = false;
})

abbrev pub csi_or_default : Build → Option CsiConfig → CsiConfig
csi_or_default build none = default_csi build
csi_or_default build (some c) = c

abbrev pub set_acquisition : Option CsiConfig → CsiNode → CsiNode
set_acquisition acquisition n = record n { setup = record n.setup { acquisition = acquisition } }

abbrev pub drop_legacy : Build → Applied → Applied
drop_legacy Build.classic a = record a { delivery = set_csi_min_sig_mode 1 a.delivery }
drop_legacy build a = record a {
  node =
      set_acquisition (some (without_legacy (csi_or_default build a.node.setup.acquisition)))
        a.node;
}

abbrev pub take_he20 : Build → Applied → Applied
take_he20 Build.classic a = a
take_he20 build a = record a { node = set_acquisition (he20_csi build) a.node }

abbrev pub apply_formats : Build → PpduSet → Applied → Applied
apply_formats build formats a =
    if only_he formats
    then take_he20 build a
    else if excludes_legacy formats
    then drop_legacy build a
    else a

abbrev pub pace_mode : ℕ → CsiNode → Option EmitterConfig → CsiNode
pace_mode hz n (some c) = record n { mode = Mode.emitter (with_period (1_000_000 / max hz 1) c) }
pace_mode hz n none = record n { setup = record n.setup { periodicity_hz = some hz } }

abbrev pub apply_rate : Option ℕ → CsiNode → CsiNode
apply_rate none n = n
apply_rate (some hz) n = pace_mode hz n (emitter_config n.mode)

abbrev pub set_id : ℕ → CsiNode → CsiNode
set_id id n = record n { setup = record n.setup { id = id } }

abbrev pub take_on : Build → MeasurementSetup → Option Mac → Option ℕ → Applied → Applied
take_on build setup filter rate a =
    let tuned = apply_formats build setup.acquisition.ppdu_formats (record {
      node = apply_channel setup.acquisition.channel a.node;
      delivery = apply_filter filter a.delivery;
    }) in
    record tuned { node = set_id setup.id (apply_rate rate tuned.node) }

-- `Result<(), SetupError>` as the error, if any.
abbrev pub finish : Build → MeasurementSetup → Applied → Checked → Option SetupError × Applied
finish build setup a (Checked.refused e) = (some e, a)
finish build setup a (Checked.accepted filter rate) = (none, take_on build setup filter rate a)

unfoldable pub apply_measurement_setup :
    Build → MeasurementSetup → Applied → Option SetupError × Applied
apply_measurement_setup build setup a = finish build setup a (check_setup build a.node.mode setup)
