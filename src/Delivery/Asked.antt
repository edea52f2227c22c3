-- ===== src/Delivery/Asked.antt =====
-- The publish gate, the filter gate and where packets go, against what the calls since power-on
-- asked for.
use esp_csi_rs.Base.{
  ℕ, ◌≡◌, Bool, true, false, not, ◌&&◌, ◌||◌, Option, none, some, List, [], ◌∷◌, ◌==◌,
}
use esp_csi_rs.Mac.{Mac, zero_mac, pack_mac}
use esp_csi_rs.Model.{Reporting, reports}
use esp_csi_rs.Delivery.{
  Delivery, OverflowPolicy, CsiDeliveryMode, set_csi_queue_overflow, set_csi_logging_enabled,
  set_csi_delivery_mode, set_csi_callback, mode_code, clear_csi_callback, set_csi_raw_callback,
  set_csi_output_enabled, set_csi_peer_filter, set_csi_min_sig_mode, set_runtime_reporting, reset,
}
use esp_csi_rs.Delivery.Capture.{open_async, poll_packet}

-- Every call that sets the state, by the user or by the node.
pub data Call : Type 0 where
  queue_overflow : OverflowPolicy → Call
  logging_enabled output_enabled : Bool → Call
  delivery_mode : CsiDeliveryMode → Call
  register register_raw : (address : ℕ) → Call
  clear_callback between_runs await_packet poll : Call
  peer_filter : Mac → Call
  min_sig_mode : ℕ → Call
  reporting : Reporting → Call

unfoldable pub apply : Call → Delivery → Delivery
apply (Call.queue_overflow policy) d = set_csi_queue_overflow policy d
apply (Call.logging_enabled b) d = set_csi_logging_enabled b d
apply (Call.output_enabled b) d = set_csi_output_enabled b d
apply (Call.delivery_mode mode) d = set_csi_delivery_mode mode d
apply (Call.register cb) d = set_csi_callback cb d
apply (Call.register_raw cb) d = set_csi_raw_callback cb d
apply Call.clear_callback d = clear_csi_callback d
apply Call.between_runs d = reset d
apply Call.await_packet d = open_async d
apply Call.poll d = (poll_packet d).0
apply (Call.peer_filter mac) d = set_csi_peer_filter mac d
apply (Call.min_sig_mode n) d = set_csi_min_sig_mode n d
apply (Call.reporting policy) d = set_runtime_reporting policy d

unfoldable pub run : List Call → Delivery → Delivery
run [] d = d
run (c ∷ cs) d = run cs (apply c d)

-- What the calls so far asked for.
pub record Asked : Type 0 where
  -- Whether the last call for or against publication was for it.
  pub wanted : Bool
  pub reporting : Bool
  pub output : Bool
  pub mode : CsiDeliveryMode
  pub callback : Option ℕ
  pub raw_callback : Option ℕ
  pub logging : Bool
  pub peer : Mac
  pub least : ℕ

abbrev pub power_on : Asked
power_on = record {
  wanted = false;
  reporting = false;
  output = true;
  mode = CsiDeliveryMode.off;
  callback = none;
  raw_callback = none;
  logging = false;
  peer = zero_mac;
  least = 0;
}

-- Who waits for a packet asks for the queue, unless packets go elsewhere.
abbrev pub wait_in : CsiDeliveryMode → Asked → Asked
wait_in CsiDeliveryMode.off a = record a { wanted = true; mode = CsiDeliveryMode.async }
wait_in CsiDeliveryMode.callback a = a
wait_in CsiDeliveryMode.async a = a

abbrev pub policy_reports : Reporting → Bool
policy_reports Reporting.never = false
policy_reports (Reporting.report to) = true
policy_reports (Reporting.threshold_based t) = true
policy_reports (Reporting.decimate n) = true

abbrev pub ask : Call → Asked → Asked
ask (Call.queue_overflow policy) a = a
ask (Call.logging_enabled b) a = record a { wanted = b; logging = b }
ask (Call.output_enabled b) a = record a { output = b }
ask (Call.delivery_mode mode) a = record a { mode = mode }
ask (Call.register cb) a = record a {
  wanted = true;
  mode = CsiDeliveryMode.callback;
  callback = some cb;
}
ask (Call.register_raw cb) a = record a { wanted = true; raw_callback = some cb }
ask Call.clear_callback a = record a { mode = CsiDeliveryMode.off; callback = none }
ask Call.between_runs a = record a {
  wanted = false;
  output = true;
  mode = CsiDeliveryMode.off;
  callback = none;
  logging = false;
}
ask Call.await_packet a = wait_in a.mode a
ask Call.poll a = a
ask (Call.peer_filter mac) a = record a { peer = mac }
ask (Call.min_sig_mode n) a = record a { least = n }
ask (Call.reporting policy) a = record a { reporting = policy_reports policy }

abbrev pub ask_all : List Call → Asked → Asked
ask_all [] a = a
ask_all (c ∷ cs) a = ask_all cs (ask c a)

-- The state that is right where the calls asked for `a`.
pub record Obeys (a : Asked) (d : Delivery) : Type 0 where
  pub publish : d.csi_publish_enabled ≡ (a.wanted && a.reporting && a.output)
  pub filter : d.csi_filter_active ≡ (not (pack_mac a.peer == 0) || not (a.least == 0))
  pub mode : d.csi_delivery_mode ≡ mode_code a.mode
  pub callback : d.csi_callback ≡ a.callback
  pub raw_callback : d.csi_raw_callback ≡ a.raw_callback
  pub logging : d.csi_inline_log_enabled ≡ a.logging
  pub intent : d.user_publish_intent ≡ a.wanted
  pub reporting : d.reports ≡ a.reporting
  pub output : d.csi_output_enabled ≡ a.output
  pub peer : d.csi_peer_filter ≡ pack_mac a.peer
  pub least : d.csi_min_sig_mode ≡ a.least
