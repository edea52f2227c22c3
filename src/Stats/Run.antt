-- ===== src/Stats/Run.antt =====
-- The events that change the statistics, and the state after a sequence of them.
use esp_csi_rs.Base.{ℕ, Bool, true, Option, List, [], ◌∷◌}
use esp_csi_rs.Mac.{Mac}
use esp_csi_rs.Stats.{
  Stats, Cause, set_seq_drop_detection, stats_begin_run, record_tx, record_collector_rx,
  record_collector_rx_drop, record_filtered, record_suppressed, record_loss, record_cur_bb_format,
  record_tx_frame,
}

-- Everything that changes the counters.
pub data Event : Type 0 where
  begin_run : (now : ℕ) → Event
  detection : (enabled : Bool) → Event
  output_toggled : Event
  transmitted received filtered suppressed collector_drop : Event
  loss : (cause : Cause) (n : ℕ) → Event
  bb_format : (fmt : ℕ) → Event
  frame : (mac : Mac) (seq : Option ℕ) (retry : Option Bool) → Event

unfoldable pub apply : Event → Stats → Stats
apply (Event.begin_run now) s = stats_begin_run now s
apply (Event.detection enabled) s = set_seq_drop_detection enabled s
apply Event.output_toggled s = record s { reset_seq_tracker = true }
apply Event.transmitted s = record_tx s
apply Event.received s = record_collector_rx s
apply Event.filtered s = record_filtered s
apply Event.suppressed s = record_suppressed s
apply Event.collector_drop s = record_collector_rx_drop s
apply (Event.loss cause n) s = record_loss cause n s
apply (Event.bb_format fmt) s = record_cur_bb_format fmt s
apply (Event.frame mac seq retry) s = record_tx_frame mac seq retry s

unfoldable pub run : List Event → Stats → Stats
run [] s = s
run (e ∷ es) s = run es (apply e s)
