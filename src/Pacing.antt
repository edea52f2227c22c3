-- ===== src/Pacing.antt =====
-- The adaptive pacing that src/lib/responder/esp_now.rs and src/lib/initiator/esp_now.rs share:
-- the constants, the rate and its interval, the step on each result of a send, and what one pass of
-- either loop meets.
pub mod Laws
mod Tests
use esp_csi_rs.Base.{
  ℕ, ◌+◌, ◌-◌, ◌*◌, ◌/◌, ◌^◌, min, max, List, Bool, true, false, if◌then◌else◌, leb,
}
use esp_csi_rs.EspNow.{SendResult}
use esp_csi_rs.Pool.{Arrival}

abbrev pub adapt_up_every_successes : ℕ
adapt_up_every_successes = 32

abbrev pub adapt_down_percent : ℕ
adapt_down_percent = 25

abbrev pub adapt_up_percent : ℕ
adapt_up_percent = 10

-- `MIN_REPLY_HZ_FLOOR` and `MIN_TX_HZ_FLOOR`.
abbrev pub min_hz_floor : ℕ
min_hz_floor = 100

-- `MAX_REPLY_HZ_CEILING` and `MAX_TX_HZ_CEILING`.
abbrev pub max_hz_ceiling : ℕ
max_hz_ceiling = 8_000

abbrev pub tx_wait_slice_us : ℕ
tx_wait_slice_us = 100

abbrev pub tx_catch_up_burst : ℕ
tx_catch_up_burst = 1

abbrev pub rx_burst_max_with_tx : ℕ
rx_burst_max_with_tx = 1

abbrev pub rx_reserved_tx_guard_us : ℕ
rx_reserved_tx_guard_us = 15

-- What one pass meets: the clock at each guard of the RX burst, before the first send and after
-- each, the result of each send, the frames that arrive before the pass, and the STOP signal.
pub record Turn : Type 0 where
  pub guard_us : ℕ → ℕ
  pub now_us : ℕ → ℕ
  pub result : ℕ → SendResult
  pub arrivals : List Arrival
  pub stop : Bool

abbrev pub is_sent : SendResult → Bool
is_sent SendResult.sent = true
is_sent _ = false

unfoldable pub hz_to_interval_us : ℕ → ℕ
hz_to_interval_us hz = max (1_000_000 / max hz 1) 1

-- `saturating_add` of two `u64`s.
abbrev pub saturating_add : ℕ → ℕ → ℕ
saturating_add a b = min (a + b) (2 ^ 64 - 1)

-- The variables that the loop carries: the bounds of the rate, the rate, the interval, the run of
-- successes and the deadline.
pub record Pacing : Type 0 where
  pub hz_max : ℕ
  pub hz_min : ℕ
  pub hz : ℕ
  pub interval_us : ℕ
  pub consecutive_tx_ok : ℕ
  pub next_tx_us : ℕ

-- `freq.clamp(1, CEILING)`, and `(hz_max / 8).max(FLOOR).min(hz_max)`.
abbrev pub clamp_hz : ℕ → ℕ
clamp_hz freq = min (max freq 1) max_hz_ceiling

abbrev pub floor_hz : ℕ → ℕ
floor_hz hz_max = min (max (hz_max / 8) min_hz_floor) hz_max

-- The start of the loop at frequency `freq`, at `now_us`.
unfoldable pub new_pacing : ℕ → Bool → ℕ → Pacing
unfolding hz_to_interval_us
new_pacing freq rx_enabled now_us =
    let interval : ℕ =
      if rx_enabled then hz_to_interval_us (clamp_hz freq) else hz_to_interval_us freq in
    record {
      hz_max = clamp_hz freq;
      hz_min = floor_hz (clamp_hz freq);
      hz = clamp_hz freq;
      interval_us = interval;
      consecutive_tx_ok = 0;
      next_tx_us = saturating_add now_us interval;
    }

abbrev pub step_up : Pacing → ℕ
step_up p = min (p.hz + max (p.hz * adapt_up_percent / 100) 1) p.hz_max

abbrev pub step_down : Pacing → ℕ
step_down p = max (p.hz - max (p.hz * adapt_down_percent / 100) 1) p.hz_min

-- A success at the 32nd in a row raises the rate.
unfoldable pub pace_sent : Pacing → Pacing
unfolding hz_to_interval_us
pace_sent p =
    let ok : ℕ = min (p.consecutive_tx_ok + 1) 65_535 in
    let up : Bool = leb adapt_up_every_successes ok in
    record p {
      consecutive_tx_ok = if up then 0 else ok;
      hz = if up then step_up p else p.hz;
      interval_us = if up then hz_to_interval_us (step_up p) else p.interval_us;
    }

unfoldable pub pace_busy : Pacing → Pacing
unfolding hz_to_interval_us
pace_busy p = record p {
  consecutive_tx_ok = 0;
  hz = step_down p;
  interval_us = hz_to_interval_us (step_down p);
}

-- The `match` on the result of `send_async`; `adaptive` is `adaptive_pacing_enabled`.
unfoldable pub pace : Bool → SendResult → Pacing → Pacing
unfolding pace_sent pace_busy
pace adaptive SendResult.sent p = if adaptive then pace_sent p else p
pace adaptive SendResult.busy p =
    if adaptive then pace_busy p else record p { consecutive_tx_ok = 0 }
pace adaptive SendResult.failed p = record p { consecutive_tx_ok = 0 }

-- `next_tx_us = next_tx_us.saturating_add(tx_interval_us)`.
abbrev pub schedule_next : Pacing → Pacing
schedule_next p = record p { next_tx_us = saturating_add p.next_tx_us p.interval_us }

-- The wait until the deadline, in slices: an eighth of the interval where the node receives, else
-- a quarter.
unfoldable pub wait_slice_us : Bool → ℕ → Pacing → ℕ
wait_slice_us rx_enabled now_us p =
    let slice : ℕ = p.interval_us / (if rx_enabled then 8 else 4) in
    max (min (p.next_tx_us - now_us) (min (max slice 1) tx_wait_slice_us)) 1
