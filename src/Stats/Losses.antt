-- ===== src/Stats/Losses.antt =====
-- The drop counter and the losses of the breakdown.
use esp_csi_rs.Base.{
  ℕ, ◌+◌, ◌%◌, ◌^◌, ◌≡◌, refl, Bool, Bool-cases, Option, List, [], ◌∷◌, ltb, inl, inr,
  if◌then◌else◌, arith,
}
use esp_csi_rs.Mac.{Mac}
use esp_csi_rs.Stats.Run.{Event, apply, run}
use esp_csi_rs.Stats.{
  Stats, Cause, new_stats, stats_begin_run, reset, record_collector_rx_drop, record_loss, count_gap,
  record_cur_bb_format, record_tx_frame, DropBreakdown, get_drop_breakdown,
}

-- The losses of the breakdown add up to the drop counter, modulo its width.
record Adds (s : Stats) : Type 0 where
  total : s.rx_drop_count ≡ (s.rx_oversize + (s.rx_queue_full + s.rx_seq_gap)) % 2 ^ 32

record_loss-Adds : (cause : Cause) (n : ℕ) (s : Stats) → Adds s → Adds (record_loss cause n s)
unfolding record_loss
record_loss-Adds Cause.oversize n s h = record { total = omega (arith, h.total) }
record_loss-Adds Cause.queue_full n s h = record { total = omega (arith, h.total) }
record_loss-Adds Cause.seq_gap n s h = record { total = omega (arith, h.total) }

count_gap-Adds : (gap : ℕ) (s : Stats) → Adds s → Adds (count_gap gap s)
unfolding count_gap
count_gap-Adds gap s h = elim (Bool-cases (ltb 0 gap)) [
  | inl e ↦ rw (e, if◌then◌else◌) (record_loss-Adds Cause.seq_gap gap s h)
  | inr e ↦ rw (e, if◌then◌else◌) h
]

record_tx_frame-Adds :
    (mac : Mac) (seq : Option ℕ) (retry : Option Bool) (s : Stats)
    → Adds s
    → Adds (record_tx_frame mac seq retry s)
unfolding record_tx_frame
record_tx_frame-Adds mac seq retry s h = count_gap-Adds _ _ (record { total = h.total })

record_cur_bb_format-Adds : (fmt : ℕ) (s : Stats) → Adds s → Adds (record_cur_bb_format fmt s)
unfolding record_cur_bb_format
record_cur_bb_format-Adds fmt s h = elim (Bool-cases (ltb fmt 8)) [
  | inl e ↦ rw (e, if◌then◌else◌) (record { total = h.total })
  | inr e ↦ rw (e, if◌then◌else◌) h
]

apply-Adds : (e : Event) (s : Stats) → Adds s → Adds (apply e s)
unfolding apply stats_begin_run reset record_collector_rx_drop
apply-Adds (Event.begin_run now) s h = record { total = refl }
apply-Adds (Event.detection enabled) s h = record { total = h.total }
apply-Adds Event.output_toggled s h = record { total = h.total }
apply-Adds Event.transmitted s h = record { total = h.total }
apply-Adds Event.received s h = record { total = h.total }
apply-Adds Event.filtered s h = record { total = h.total }
apply-Adds Event.suppressed s h = record { total = h.total }
apply-Adds Event.collector_drop s h = record_loss-Adds Cause.queue_full 1 s h
apply-Adds (Event.loss cause n) s h = record_loss-Adds cause n s h
apply-Adds (Event.bb_format fmt) s h = record_cur_bb_format-Adds fmt s h
apply-Adds (Event.frame mac seq retry) s h = record_tx_frame-Adds mac seq retry s h

run-Adds : (es : List Event) (s : Stats) → Adds s → Adds (run es s)
unfolding run
run-Adds [] s h = h
run-Adds (e ∷ es) s h = run-Adds es (apply e s) (apply-Adds e s h)

-- The sum of the losses in a breakdown.
abbrev pub losses : DropBreakdown → ℕ
losses b = b.oversize + (b.queue_full + b.seq_gap)

-- From power-on, after any sequence of events, the drop counter is the sum of the three losses of
-- the breakdown (oversize, queue full, sequence gap) modulo 2^32.
pub run-losses :
    (es : List Event) (log_drops : ℕ)
    → (run es new_stats).rx_drop_count
      ≡ losses (get_drop_breakdown log_drops (run es new_stats)) % 2 ^ 32
unfolding get_drop_breakdown
run-losses es log_drops = (run-Adds es new_stats (record { total = refl })).total
