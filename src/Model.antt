-- ===== src/Model.antt =====
-- src/lib/model.rs: a node's session role, its sensing role and what it reports.
use esp_csi_rs.Base.{ℕ, Bool, true, false}

pub data SessionRole : Type 0 where
  initiator responder : SessionRole

pub data SensingRole : Type 0 where
  transmitter receiver transmitter_receiver : SensingRole

-- `SensingRole::receives` and `SensingRole::transmits`.
abbrev pub receives : SensingRole → Bool
receives SensingRole.transmitter = false
receives _ = true

abbrev pub transmits : SensingRole → Bool
transmits SensingRole.receiver = false
transmits _ = true

pub data ReportTo : Type 0 where
  host local : ReportTo

pub record Threshold : Type 0 where
  pub level : ℕ
  pub hold_ms : ℕ
  pub variation_only : Bool

pub data Reporting : Type 0 where
  report : (to : ReportTo) → Reporting
  threshold_based : Threshold → Reporting
  decimate : ℕ → Reporting
  never : Reporting

unfoldable pub reports : Reporting → Bool
reports Reporting.never = false
reports _ = true

-- `Reporting::HOST`.
abbrev pub host_reporting : Reporting
host_reporting = Reporting.report ReportTo.host

-- `Threshold::new` and `Threshold::variation_only`.
abbrev pub new_threshold_reporting : ℕ → ℕ → Threshold
new_threshold_reporting level hold_ms = record {
  level = level;
  hold_ms = hold_ms;
  variation_only = false;
}

abbrev pub with_variation_only : Threshold → Threshold
with_variation_only t = record t { variation_only = true }
