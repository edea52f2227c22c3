-- ===== src/Delivery.antt =====
-- src/lib/csi/delivery.rs: the state behind delivery, and every function that sets it.
-- The statics are the fields of one record; each function runs to its end. A callback is the address
-- that the `AtomicPtr` holds, `none` for null. A `Signal` is whether it is raised.
pub mod Admit
pub mod Capture
pub mod Gate
pub mod Asked
pub mod Queue
pub mod Paths
mod Tests
use esp_csi_rs.Base.{
  ℕ, max, Bool, true, false, not, ◌&&◌, ◌||◌, Option, none, some, List, [], ◌==◌, ltb,
  if◌then◌else◌,
}
use esp_csi_rs.Mac.{Mac, pack_mac, unpack_mac}
use esp_csi_rs.Model.{ReportTo, Threshold, Reporting, reports}
use esp_csi_rs.Policy.{ThresholdState, Decimator, new_threshold, new_decimator}
use esp_csi_rs.Packet.{CsiPacket}

pub data OverflowPolicy : Type 0 where
  drop_newest drop_oldest : OverflowPolicy

pub data CsiDeliveryMode : Type 0 where
  off callback async : CsiDeliveryMode

pub record Delivery : Type 0 where
  pub overflow_drop_oldest : Bool
  pub reports : Bool
  pub reporting_changed : Bool
  pub csi_output_enabled : Bool
  pub user_publish_intent : Bool
  pub csi_publish_enabled : Bool
  pub csi_output_changed : Bool
  pub csi_delivery_mode : ℕ
  pub csi_callback : Option ℕ
  pub csi_raw_callback : Option ℕ
  pub csi_inline_log_enabled : Bool
  pub csi_peer_filter : ℕ
  pub csi_min_sig_mode : ℕ
  pub csi_filter_active : Bool
  pub policy_kind : ℕ
  pub policy_a : ℕ
  pub policy_b : ℕ
  pub policy_variation : Bool
  pub report_local : Bool
  pub policy_reset : Bool
  pub threshold : ThresholdState
  pub decimator : Decimator
  pub csi_queue : List CsiPacket

-- The initial values of the statics.
abbrev pub new_delivery : Delivery
new_delivery = record {
  overflow_drop_oldest = false;
  reports = false;
  reporting_changed = false;
  csi_output_enabled = true;
  user_publish_intent = false;
  csi_publish_enabled = false;
  csi_output_changed = false;
  csi_delivery_mode = 0;
  csi_callback = none;
  csi_raw_callback = none;
  csi_inline_log_enabled = false;
  csi_peer_filter = 0;
  csi_min_sig_mode = 0;
  csi_filter_active = false;
  policy_kind = 0;
  policy_a = 0;
  policy_b = 0;
  policy_variation = false;
  report_local = false;
  policy_reset = false;
  threshold = new_threshold;
  decimator = new_decimator;
  csi_queue = [];
}

abbrev pub set_csi_queue_overflow : OverflowPolicy → Delivery → Delivery
set_csi_queue_overflow OverflowPolicy.drop_newest d = record d { overflow_drop_oldest = false }
set_csi_queue_overflow OverflowPolicy.drop_oldest d = record d { overflow_drop_oldest = true }

abbrev pub csi_queue_overflow : Delivery → OverflowPolicy
csi_queue_overflow d =
    if d.overflow_drop_oldest then OverflowPolicy.drop_oldest else OverflowPolicy.drop_newest

unfoldable pub apply_publish_gate : Delivery → Delivery
apply_publish_gate d = record d {
  csi_publish_enabled = d.user_publish_intent && d.reports && d.csi_output_enabled;
}

unfoldable pub set_csi_logging_enabled : Bool → Delivery → Delivery
unfolding apply_publish_gate
set_csi_logging_enabled enabled d =
    apply_publish_gate
      (record d { csi_inline_log_enabled = enabled; user_publish_intent = enabled })

-- `mode as u8`.
abbrev pub mode_code : CsiDeliveryMode → ℕ
mode_code CsiDeliveryMode.off = 0
mode_code CsiDeliveryMode.callback = 1
mode_code CsiDeliveryMode.async = 2

abbrev pub set_csi_delivery_mode : CsiDeliveryMode → Delivery → Delivery
set_csi_delivery_mode mode d = record d { csi_delivery_mode = mode_code mode }

unfoldable pub csi_delivery_mode : Delivery → CsiDeliveryMode
csi_delivery_mode d =
    if d.csi_delivery_mode == 1
    then CsiDeliveryMode.callback
    else if d.csi_delivery_mode == 2
    then CsiDeliveryMode.async
    else CsiDeliveryMode.off

unfoldable pub set_csi_callback : ℕ → Delivery → Delivery
unfolding apply_publish_gate
set_csi_callback cb d = apply_publish_gate (record d {
  csi_callback = some cb;
  csi_delivery_mode = mode_code CsiDeliveryMode.callback;
  user_publish_intent = true;
})

abbrev pub clear_csi_callback : Delivery → Delivery
clear_csi_callback d = record d {
  csi_delivery_mode = mode_code CsiDeliveryMode.off;
  csi_callback = none;
}

unfoldable pub set_csi_raw_callback : ℕ → Delivery → Delivery
unfolding apply_publish_gate
set_csi_raw_callback cb d =
    apply_publish_gate (record d { csi_raw_callback = some cb; user_publish_intent = true })

unfoldable pub set_csi_output_enabled : Bool → Delivery → Delivery
unfolding apply_publish_gate
set_csi_output_enabled enabled d =
    record (apply_publish_gate (record d { csi_output_enabled = enabled })) {
      csi_output_changed = true;
    }

unfoldable pub refresh_filter_active : Delivery → Delivery
refresh_filter_active d = record d {
  csi_filter_active = not (d.csi_peer_filter == 0) || not (d.csi_min_sig_mode == 0);
}

unfoldable pub set_csi_peer_filter : Mac → Delivery → Delivery
unfolding refresh_filter_active
set_csi_peer_filter mac d = refresh_filter_active (record d { csi_peer_filter = pack_mac mac })

unfoldable pub csi_peer_filter : Delivery → Mac
csi_peer_filter d = unpack_mac d.csi_peer_filter

unfoldable pub set_csi_min_sig_mode : ℕ → Delivery → Delivery
unfolding refresh_filter_active
set_csi_min_sig_mode min d = refresh_filter_active (record d { csi_min_sig_mode = min })

-- `csi_passes_filter` for the frame's source and, on a classic radio, its `packet_mode`.
unfoldable pub csi_passes_filter : Mac → Option ℕ → Delivery → Bool
csi_passes_filter mac packet_mode d =
    if not d.csi_filter_active
    then true
    else if not (d.csi_peer_filter == 0) && not (pack_mac mac == d.csi_peer_filter)
    then false
    else (elim packet_mode [
      | none ↦ true
      | some mode ↦ not (not (d.csi_min_sig_mode == 0) && ltb mode d.csi_min_sig_mode)
    ])

-- `POLICY_NONE`, `POLICY_REPORT`, `POLICY_THRESHOLD` and `POLICY_DECIMATE`.
abbrev pub policy_none : ℕ
policy_none = 0

abbrev pub policy_report : ℕ
policy_report = 1

abbrev pub policy_threshold : ℕ
policy_threshold = 2

abbrev pub policy_decimate : ℕ
policy_decimate = 3

unfoldable pub runtime_reporting : Delivery → Reporting
runtime_reporting d =
    if d.policy_kind == policy_report
    then Reporting.report (if d.report_local then ReportTo.local else ReportTo.host)
    else if d.policy_kind == policy_threshold
    then Reporting.threshold_based
        (record { level = d.policy_a; hold_ms = d.policy_b; variation_only = d.policy_variation })
    else if d.policy_kind == policy_decimate
    then Reporting.decimate d.policy_a
    else Reporting.never

-- The `match` of `set_runtime_reporting`: kind, a, b and variation.
abbrev pub policy_fields : Reporting → ℕ × ℕ × ℕ × Bool
policy_fields (Reporting.report to) = (policy_report, 0, 0, false)
policy_fields Reporting.never = (policy_none, 0, 0, false)
policy_fields (Reporting.threshold_based t) =
    (policy_threshold, t.level, t.hold_ms, t.variation_only)
policy_fields (Reporting.decimate n) = (policy_decimate, max n 1, 0, false)

abbrev pub is_local : Reporting → Bool
is_local (Reporting.report ReportTo.local) = true
is_local _ = false

unfoldable pub set_runtime_reporting : Reporting → Delivery → Delivery
unfolding apply_publish_gate
set_runtime_reporting policy d =
    let (kind, a, b, var) = policy_fields policy in
    let d' : Delivery = record d {
      report_local = is_local policy;
      policy_a = a;
      policy_b = b;
      policy_variation = var;
      policy_reset = true;
      policy_kind = kind;
      reports = reports policy;
    } in
    record (apply_publish_gate d') { reporting_changed = true }

unfoldable pub reset : Delivery → Delivery
reset d = record d {
  csi_inline_log_enabled = false;
  user_publish_intent = false;
  csi_publish_enabled = false;
  csi_output_enabled = true;
  csi_delivery_mode = mode_code CsiDeliveryMode.off;
  csi_callback = none;
}
