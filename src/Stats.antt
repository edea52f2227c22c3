-- ===== src/Stats.antt =====
-- src/lib/stats.rs with the `statistics` feature: the counters and the per-transmitter table.
-- The statics are the fields of one record. `+= 1` on a `u32` wraps, as `fetch_add` does. The log
-- backend's own drop counter is outside this module and an argument where it is read.
pub mod Run
pub mod Losses
pub mod Table
pub mod Gaps
mod Tests
use esp_csi_rs.Base.{
  ℕ, zero, suc, ◌+◌, ◌-◌, ◌*◌, ◌/◌, ◌%◌, ◌^◌, bit_and, min, Bool, true, false, not, ◌&&◌, ◌||◌,
  Option, none, some, List, [], ◌∷◌, ◌++◌, map, ◌==◌, ltb, if◌then◌else◌, unwrap_or, length, get_or,
  set, take, replicate,
}
use esp_csi_rs.Mac.{Mac, mac_eq}

pub record TxStats : Type 0 where
  pub mac : Mac
  pub frames : ℕ
  pub seq_gaps : ℕ
  pub retries : ℕ
  pub last_seq : ℕ
  pub last_used : ℕ
  pub resync : Bool

-- `MAX_TRACKED_TX`.
abbrev pub max_tracked_tx : ℕ
max_tracked_tx = 16

-- `GlobalStats`, `BB_FORMAT_HIST`, `RESET_SEQ_TRACKER`, `SEQ_DROP_DETECTION_ENABLED`, `PER_TX` and
-- `PER_TX_CLOCK`.
pub record Stats : Type 0 where
  pub tx_count : ℕ
  pub rx_count : ℕ
  pub rx_drop_count : ℕ
  pub rx_filtered : ℕ
  pub rx_oversize : ℕ
  pub rx_queue_full : ℕ
  pub rx_seq_gap : ℕ
  pub rx_policy_suppressed : ℕ
  pub capture_start_time : ℕ
  pub tx_rate_hz : ℕ
  pub rx_rate_hz : ℕ
  pub bb_format_hist : List ℕ
  pub reset_seq_tracker : Bool
  pub seq_drop_detection_enabled : Bool
  pub per_tx : List TxStats
  pub per_tx_clock : ℕ

-- The initial values of the statics.
abbrev pub new_stats : Stats
new_stats = record {
  tx_count = 0;
  rx_count = 0;
  rx_drop_count = 0;
  rx_filtered = 0;
  rx_oversize = 0;
  rx_queue_full = 0;
  rx_seq_gap = 0;
  rx_policy_suppressed = 0;
  capture_start_time = 0;
  tx_rate_hz = 0;
  rx_rate_hz = 0;
  bb_format_hist = replicate 8 0;
  reset_seq_tracker = false;
  seq_drop_detection_enabled = false;
  per_tx = [];
  per_tx_clock = 0;
}

abbrev pub set_seq_drop_detection : Bool → Stats → Stats
set_seq_drop_detection enabled s = record s { seq_drop_detection_enabled = enabled }

-- `stats::reset`.
unfoldable pub reset : Stats → Stats
reset s = record s {
  tx_count = 0;
  rx_count = 0;
  rx_drop_count = 0;
  rx_filtered = 0;
  rx_oversize = 0;
  rx_queue_full = 0;
  rx_seq_gap = 0;
  rx_policy_suppressed = 0;
  per_tx = [];
  tx_rate_hz = 0;
  rx_rate_hz = 0;
  bb_format_hist = replicate 8 0;
}

unfoldable pub stats_begin_run : ℕ → Stats → Stats
unfolding reset
stats_begin_run now s = record (reset s) { capture_start_time = now }

-- `fetch_add(1)` on a `u64` and on a `u32`.
abbrev add64 : ℕ → ℕ
add64 n = (n + 1) % 2 ^ 64

abbrev add32 : ℕ → ℕ
add32 n = (n + 1) % 2 ^ 32

abbrev pub record_tx : Stats → Stats
record_tx s = record s { tx_count = add64 s.tx_count }

-- `STATS.rx_count.fetch_add(1)`, which `record_collector_rx` also does.
abbrev pub record_collector_rx : Stats → Stats
record_collector_rx s = record s { rx_count = add64 s.rx_count }

abbrev pub record_filtered : Stats → Stats
record_filtered s = record s { rx_filtered = add32 s.rx_filtered }

abbrev pub record_suppressed : Stats → Stats
record_suppressed s = record s { rx_policy_suppressed = add32 s.rx_policy_suppressed }

-- The counter that `record_loss` is given.
pub data Cause : Type 0 where
  oversize queue_full seq_gap : Cause

unfoldable pub record_loss : Cause → ℕ → Stats → Stats
record_loss Cause.oversize n s = record s {
  rx_oversize = (s.rx_oversize + n) % 2 ^ 32;
  rx_drop_count = (s.rx_drop_count + n) % 2 ^ 32;
}
record_loss Cause.queue_full n s = record s {
  rx_queue_full = (s.rx_queue_full + n) % 2 ^ 32;
  rx_drop_count = (s.rx_drop_count + n) % 2 ^ 32;
}
record_loss Cause.seq_gap n s = record s {
  rx_seq_gap = (s.rx_seq_gap + n) % 2 ^ 32;
  rx_drop_count = (s.rx_drop_count + n) % 2 ^ 32;
}

abbrev pub record_collector_rx_drop : Stats → Stats
unfolding record_loss
record_collector_rx_drop s = record_loss Cause.queue_full 1 s

unfoldable pub record_cur_bb_format : ℕ → Stats → Stats
record_cur_bb_format fmt s =
    if ltb fmt 8
    then record s {
      bb_format_hist = set s.bb_format_hist fmt (add32 (get_or s.bb_format_hist fmt 0));
    }
    else s

-- `get_pps_rx` and `get_pps_tx`, with the seconds since the capture started.
unfoldable pub get_pps : ℕ → ℕ → ℕ
get_pps total_packets elapsed_secs =
    if elapsed_secs == 0 then total_packets else total_packets / elapsed_secs

-- `t.iter().position(|e| e.mac == mac)`.
unfoldable pub find : Mac → List TxStats → Option ℕ
find mac [] = none
find mac (e ∷ es) =
    let rest = find mac es in
    if mac_eq e.mac mac then some 0 else (elim rest [ none ↦ none | some i ↦ some (suc i) ])

-- `min_by_key`: the index of the first entry with the least `last_used`.
unfoldable pub lru_loop : List TxStats → ℕ → ℕ → ℕ → ℕ
lru_loop [] i best key = best
lru_loop (e ∷ es) i best key =
    let earlier = ltb e.last_used key in
    lru_loop es (i + 1) (if earlier then i else best) (if earlier then e.last_used else key)

unfoldable pub lru : List TxStats → ℕ
lru [] = 0
lru (e ∷ es) = lru_loop es 1 0 e.last_used

abbrev pub fresh : Mac → Option ℕ → TxStats
fresh mac seq = record {
  mac = mac;
  frames = 0;
  seq_gaps = 0;
  retries = 0;
  last_seq = unwrap_or seq 0;
  last_used = 0;
  resync = false;
}

-- The `match` on the position: the table with the transmitter in it, and its index.
unfoldable pub entry : Mac → Option ℕ → List TxStats → List TxStats × ℕ
entry mac seq t = elim (find mac t) [
  | some i ↦ (t, i)
  | none ↦
      if ltb (length t) max_tracked_tx
      then (t ++ (fresh mac seq ∷ []), length t)
      else (set t (lru t) (fresh mac seq), lru t)
]

-- `seq.wrapping_sub(e.last_seq) & 0x0FFF`.
abbrev pub seq_diff : ℕ → ℕ → ℕ
seq_diff seq last = bit_and ((seq + 2 ^ 16 - last) % 2 ^ 16) 0x0FFF

-- The missing frames before one with the given number.
unfoldable pub gap_before : Bool → ℕ → ℕ → ℕ
gap_before first last seq =
    let diff = seq_diff seq last in
    if not first && (ltb 1 diff && ltb diff 500) then diff - 1 else 0

-- The fold of one frame into its entry, and the gap.
unfoldable pub touch : ℕ → Option ℕ → Option Bool → TxStats → TxStats × ℕ
unfolding gap_before
touch now seq retry e =
    let first = e.frames == 0 || e.resync in
    let seen : TxStats = record e {
      frames = add32 e.frames;
      last_used = now;
      resync = if e.frames == 0 then e.resync else false;
    } in
    if unwrap_or retry false then (record seen { retries = add32 e.retries }, 0) else (elim seq [
      | none ↦ (seen, 0)
      | some n ↦ (
        record seen {
          seq_gaps = (e.seq_gaps + gap_before first e.last_seq n) % 2 ^ 32;
          last_seq = n;
        },
        gap_before first e.last_seq n,
      )
    ])

abbrev pub mark : TxStats → TxStats
mark e = record e { resync = true }

-- `for e in t.iter_mut() { e.resync = true; }`.
abbrev pub resync_table : Bool → List TxStats → List TxStats
resync_table resync_all t = if resync_all then map mark t else t

-- The closure under the table's lock: the new table, and the gap.
unfoldable pub track : ℕ → Mac → Option ℕ → Option Bool → List TxStats → List TxStats × ℕ
unfolding entry touch
track now mac seq retry table =
    let (t, idx) = entry mac seq table in
    let (e, gap) = touch now seq retry (get_or t idx (fresh mac seq)) in (set t idx e, gap)

-- `if gap > 0 { record_loss(&STATS.rx_seq_gap, gap); }`.
unfoldable pub count_gap : ℕ → Stats → Stats
unfolding record_loss
count_gap gap s = if ltb 0 gap then record_loss Cause.seq_gap gap s else s

unfoldable pub record_tx_frame : Mac → Option ℕ → Option Bool → Stats → Stats
unfolding track count_gap
record_tx_frame mac seq retry s =
    let (t, gap) = track s.per_tx_clock mac seq retry (resync_table s.reset_seq_tracker s.per_tx) in
    count_gap gap
      (record s { per_tx = t; per_tx_clock = add32 s.per_tx_clock; reset_seq_tracker = false })

-- `snapshot_tx_stats` into a slice of `n` entries.
abbrev pub snapshot_tx_stats : ℕ → Stats → List TxStats
snapshot_tx_stats n s = take (min (length s.per_tx) n) s.per_tx

pub record DropBreakdown : Type 0 where
  pub filtered : ℕ
  pub policy_suppressed : ℕ
  pub oversize : ℕ
  pub queue_full : ℕ
  pub seq_gap : ℕ
  pub log_dropped : ℕ

unfoldable pub get_drop_breakdown : ℕ → Stats → DropBreakdown
get_drop_breakdown log_packet_drops s = record {
  filtered = s.rx_filtered;
  policy_suppressed = s.rx_policy_suppressed;
  oversize = s.rx_oversize;
  queue_full = s.rx_queue_full;
  seq_gap = s.rx_seq_gap;
  log_dropped = log_packet_drops;
}
