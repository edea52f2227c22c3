-- ===== src/Wire/Setup.antt =====
-- src/lib/wire/setup.rs: measurement setups in IEEE 802.11bf's terms.
pub mod Sets
pub mod Rate
use esp_csi_rs.Base.{
  ℕ, ◌+◌, ◌-◌, ◌*◌, ◌/◌, ◌^◌, bit_and, bit_or, Bool, true, false, not, ◌&&◌, ◌||◌, Option, none,
  some, List, [], ◌==◌, ltb, if◌then◌else◌,
}
use esp_csi_rs.Mac.{Mac}
use esp_csi_rs.Wire.{PpduFormat, Bandwidth}

-- `PpduSet` is its one field, a `u16`.
pub record PpduSet : Type 0 where
  pub bits : ℕ

-- `PpduSet::ANY`.
abbrev pub any_format : PpduSet
any_format = record { bits = 0 }

-- The exponent in `PpduSet::bit`.
abbrev pub bit_index : PpduFormat → ℕ
bit_index PpduFormat.unknown = 0
bit_index PpduFormat.dsss = 1
bit_index PpduFormat.non_ht = 2
bit_index PpduFormat.ht = 3
bit_index PpduFormat.vht = 4
bit_index PpduFormat.vht_mu = 5
bit_index PpduFormat.he_su = 6
bit_index PpduFormat.he_mu = 7
bit_index PpduFormat.he_er_su = 8
bit_index PpduFormat.he_tb = 9
bit_index PpduFormat.eht = 10

abbrev pub bit : PpduFormat → ℕ
bit f = 2 ^ bit_index f

-- `PpduSet::with`.
unfoldable pub with_format : PpduSet → PpduFormat → PpduSet
with_format s f = record { bits = bit_or s.bits (bit f) }

unfoldable pub contains : PpduSet → PpduFormat → Bool
contains s f = s.bits == 0 || not (bit_and s.bits (bit f) == 0)

unfoldable pub is_any : PpduSet → Bool
is_any s = s.bits == 0

-- The mask `he` of `only_he`, and its complement in 16 bits.
abbrev pub he_mask : ℕ
he_mask =
    bit_or (bit_or (bit_or (bit PpduFormat.he_su) (bit PpduFormat.he_mu)) (bit PpduFormat.he_er_su))
      (bit PpduFormat.he_tb)

abbrev pub not_he_mask : ℕ
not_he_mask = 65535 - he_mask

unfoldable pub only_he : PpduSet → Bool
only_he s = not (s.bits == 0) && bit_and s.bits not_he_mask == 0

abbrev pub legacy_mask : ℕ
legacy_mask = bit_or (bit PpduFormat.dsss) (bit PpduFormat.non_ht)

unfoldable pub excludes_legacy : PpduSet → Bool
excludes_legacy s = not (s.bits == 0) && bit_and s.bits legacy_mask == 0

pub record AcquisitionFilter : Type 0 where
  pub channel : Option ℕ
  pub bandwidth : Option Bandwidth
  pub ppdu_formats : PpduSet
  pub transmitter : Option Mac

-- `AcquisitionFilter::default`.
abbrev pub accept_all : AcquisitionFilter
accept_all = record {
  channel = none;
  bandwidth = none;
  ppdu_formats = any_format;
  transmitter = none;
}

pub data ReportType : Type 0 where
  raw grouped : ReportType

pub record StimulusParams : Type 0 where
  pub periodicity_us : ℕ
  pub bandwidth : Bandwidth
  pub report : ReportType
  pub ng : ℕ
  pub nb : ℕ
  pub trigger_based : Bool
  pub responders : List Mac

-- `StimulusParams::new`.
abbrev pub new_stimulus : ℕ → Bandwidth → StimulusParams
new_stimulus periodicity_us bandwidth = record {
  periodicity_us = periodicity_us;
  bandwidth = bandwidth;
  report = ReportType.raw;
  ng = 1;
  nb = 8;
  trigger_based = false;
  responders = [];
}

-- `StimulusParams::rate_hz`, of the periodicity.
unfoldable pub rate_hz : StimulusParams → ℕ
rate_hz p =
    if p.periodicity_us == 0
    then 65535
    else let hz = 1_000_000 / p.periodicity_us in
      if ltb 65535 hz then 65535 else if hz == 0 then 1 else hz

pub record MeasurementSetup : Type 0 where
  pub id : ℕ
  pub acquisition : AcquisitionFilter
  pub stimulus : Option StimulusParams

-- `MeasurementSetup::new`, `with_acquisition` and `with_stimulus`.
abbrev pub new_setup : ℕ → MeasurementSetup
new_setup id = record { id = id; acquisition = accept_all; stimulus = none }

abbrev pub with_acquisition : MeasurementSetup → AcquisitionFilter → MeasurementSetup
with_acquisition s a = record s { acquisition = a }

abbrev pub with_stimulus : MeasurementSetup → StimulusParams → MeasurementSetup
with_stimulus s p = record s { stimulus = some p }
