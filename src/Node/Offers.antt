-- ===== src/Node/Offers.antt =====
-- What each mode offers (the width that it is configured for, and whether it sounds the channel),
-- and the setups that it can honour.
use esp_csi_rs.Base.{
  ◌≡◌, refl, ◌==◌, Bool, true, false, not, ◌&&◌, ◌||◌, Option, none, some, List, [], ◌∷◌, is_some,
  if◌then◌else◌, arith,
}
use esp_csi_rs.Mac.{Mac, mac_eq}
use esp_csi_rs.Wire.Setup.{
  MeasurementSetup, PpduSet, StimulusParams, excludes_legacy, is_any, only_he,
}
use esp_csi_rs.Config.{Build}
use esp_csi_rs.Wire.{Bandwidth}
use esp_csi_rs.Model.{SessionRole}
use esp_csi_rs.Mode.{EmitterPhy, Mode, SimplexEnd}
use esp_csi_rs.Node.{
  is_ax, is_raw, other_width, other_widths, configured_bandwidth, sounds, width_of,
}

-- A secondary channel doubles the width.
abbrev pub doubled {ℓ} : {A : Type ℓ} → Option A → Option Bandwidth
doubled none = some Bandwidth.mhz20
doubled (some secondary) = some Bandwidth.mhz40

abbrev pub phy_width : EmitterPhy → Option Bandwidth
phy_width EmitterPhy.ht40_above = some Bandwidth.mhz40
phy_width EmitterPhy.ht40_below = some Bandwidth.mhz40
phy_width _ = some Bandwidth.mhz20

-- A station takes the width of its access point, and a sniffer hears both.
abbrev pub mode_width : Mode → Option Bandwidth
mode_width (Mode.esp_now c) = doubled c.secondary_channel
mode_width (Mode.esp_now_simplex c) = doubled c.inner.secondary_channel
mode_width (Mode.access_point c) = doubled c.secondary_channel
mode_width (Mode.emitter c) = phy_width c.phy
mode_width (Mode.station c) = none
mode_width (Mode.sniffer c) = none

abbrev pub starts : SessionRole → Bool
starts SessionRole.initiator = true
starts SessionRole.responder = false

abbrev pub may_start : Option SessionRole → Bool
may_start none = false
may_start (some SessionRole.initiator) = true
may_start (some SessionRole.responder) = false

abbrev pub floods : SimplexEnd → Bool
floods SimplexEnd.source = true
floods SimplexEnd.peer = false

-- The initiators, the simplex source, the access point and the emitter send what others measure.
abbrev pub mode_sounds : Mode → Bool
mode_sounds (Mode.esp_now c) = starts c.session
mode_sounds (Mode.esp_now_simplex c) = floods c.end
mode_sounds (Mode.station c) = may_start c.session
mode_sounds (Mode.access_point c) = true
mode_sounds (Mode.emitter c) = true
mode_sounds (Mode.sniffer c) = false

-- What the doc of `apply_measurement_setup` asks of a setup.
abbrev pub can_select : Build → PpduSet → Bool
can_select build formats =
    if only_he formats then is_ax build else is_any formats || excludes_legacy formats

abbrev pub one_responder : Option Mac → List Mac → Bool
one_responder filter [] = true
one_responder none (one ∷ []) = true
one_responder (some t) (one ∷ []) = mac_eq t one
one_responder filter (one ∷ two ∷ rest) = false

abbrev pub can_sound : Mode → Option Mac → Option StimulusParams → Bool
can_sound mode filter none = true
can_sound mode filter (some st) =
    mode_sounds mode
    && (is_raw st.report
        && ((st.ng == 1 && st.nb == 8)
            && (not st.trigger_based
                && (not (other_width (mode_width mode) st.bandwidth)
                    && one_responder filter st.responders))))

unfoldable pub can_honour : Build → Mode → MeasurementSetup → Bool
can_honour build mode setup =
    not (other_widths (mode_width mode) setup.acquisition.bandwidth)
    && (can_select build setup.acquisition.ppdu_formats
        && can_sound mode setup.acquisition.transmitter setup.stimulus)

doubled-width_of {ℓ} : {A : Type ℓ} (o : Option A) → width_of (is_some o) ≡ doubled o
doubled-width_of none = refl
doubled-width_of (some secondary) = refl

pub configured_bandwidth-mode_width : (mode : Mode) → configured_bandwidth mode ≡ mode_width mode
unfolding configured_bandwidth
configured_bandwidth-mode_width (Mode.esp_now c) = doubled-width_of c.secondary_channel
configured_bandwidth-mode_width (Mode.esp_now_simplex c) =
    doubled-width_of c.inner.secondary_channel
configured_bandwidth-mode_width (Mode.access_point c) = doubled-width_of c.secondary_channel
configured_bandwidth-mode_width (Mode.emitter c) = ground arith
configured_bandwidth-mode_width (Mode.station c) = refl
configured_bandwidth-mode_width (Mode.sniffer c) = refl

pub sounds-mode_sounds : (mode : Mode) → sounds mode ≡ mode_sounds mode
unfolding sounds
sounds-mode_sounds (Mode.esp_now c) = ground arith
sounds-mode_sounds (Mode.esp_now_simplex c) = ground arith
sounds-mode_sounds (Mode.station c) = ground arith
sounds-mode_sounds (Mode.access_point c) = refl
sounds-mode_sounds (Mode.emitter c) = refl
sounds-mode_sounds (Mode.sniffer c) = refl
