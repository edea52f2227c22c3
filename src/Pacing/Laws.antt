-- ===== src/Pacing/Laws.antt =====
-- The rate stays between its bounds and comes back up.
use esp_csi_rs.Base.{
  ℕ, zero, suc, ◌+◌, ◌-◌, ◌*◌, ◌≤◌, ◌<◌, min, ◌≡◌, refl, ap, ◌∙◌, Bool-cases, inl, inr, true, List,
  [], ◌∷◌, leb, arith,
}
use esp_csi_rs.EspNow.{SendResult}
use esp_csi_rs.Pacing.{
  Pacing, hz_to_interval_us, new_pacing, clamp_hz, floor_hz, pace_sent, pace_busy, pace,
  schedule_next,
}

-- The rate and its interval within their bounds, and fewer than 32 successes in a row.
pub record IsPaced (p : Pacing) : Type 0 where
  pub least : 1 ≤ p.hz_min
  pub floor : p.hz_min ≤ p.hz
  pub ceiling : p.hz ≤ p.hz_max
  pub top : p.hz_max ≤ 8_000
  pub interval : p.interval_us ≡ hz_to_interval_us p.hz
  pub streak : p.consecutive_tx_ok < 32

-- The results of sends, one after the other, with the deadline moved after each.
abbrev pub pace_all : List SendResult → Pacing → Pacing
pace_all [] p = p
pace_all (r ∷ rs) p = pace_all rs (schedule_next (pace true r p))

pub new_pacing-IsPaced : (freq now_us : ℕ) → IsPaced (new_pacing freq true now_us)
unfolding new_pacing
new_pacing-IsPaced freq now_us = record {
  least = omega arith;
  floor = omega arith;
  ceiling = omega arith;
  top = omega arith;
  interval = refl;
  streak = omega arith;
}

pace_sent-IsPaced : (p : Pacing) → IsPaced p → IsPaced (pace_sent p)
unfolding pace_sent
pace_sent-IsPaced p h = elim (Bool-cases (leb 32 (min (p.consecutive_tx_ok + 1) 65_535))) [
  | inl up ↦ record {
    least = h.least;
    floor = rw up (omega (arith, h.floor, h.ceiling));
    ceiling = rw up (omega arith);
    top = h.top;
    interval = rw up refl;
    streak = rw up (omega arith);
  }
  | inr same ↦ record {
    least = h.least;
    floor = rw same h.floor;
    ceiling = rw same h.ceiling;
    top = h.top;
    interval = rw same h.interval;
    streak = rw same (ground (arith, h.streak));
  }
]

pace_busy-IsPaced : (p : Pacing) → IsPaced p → IsPaced (pace_busy p)
unfolding pace_busy
pace_busy-IsPaced p h = record {
  least = h.least;
  floor = omega arith;
  ceiling = omega (arith, h.floor, h.ceiling);
  top = h.top;
  interval = refl;
  streak = omega arith;
}

pace-IsPaced : (r : SendResult) (p : Pacing) → IsPaced p → IsPaced (schedule_next (pace true r p))
unfolding pace
pace-IsPaced SendResult.sent p h =
    let k = pace_sent-IsPaced p h in
    record {
      least = k.least;
      floor = k.floor;
      ceiling = k.ceiling;
      top = k.top;
      interval = k.interval;
      streak = k.streak;
    }
pace-IsPaced SendResult.busy p h =
    let k = pace_busy-IsPaced p h in
    record {
      least = k.least;
      floor = k.floor;
      ceiling = k.ceiling;
      top = k.top;
      interval = k.interval;
      streak = k.streak;
    }
pace-IsPaced SendResult.failed p h = record {
  least = h.least;
  floor = h.floor;
  ceiling = h.ceiling;
  top = h.top;
  interval = h.interval;
  streak = omega arith;
}

pub pace_all-IsPaced : (rs : List SendResult) (p : Pacing) → IsPaced p → IsPaced (pace_all rs p)
pace_all-IsPaced [] p h = h
pace_all-IsPaced (r ∷ rs) p h = pace_all-IsPaced rs _ (pace-IsPaced r p h)

abbrev pub successes : ℕ → List SendResult
successes zero = []
successes (suc n) = SendResult.sent ∷ successes n

pace_all-hz_max : (rs : List SendResult) (p : Pacing) → (pace_all rs p).hz_max ≡ p.hz_max
unfolding pace pace_sent pace_busy
pace_all-hz_max [] p = refl
pace_all-hz_max (SendResult.sent ∷ rs) p = pace_all-hz_max rs _
pace_all-hz_max (SendResult.busy ∷ rs) p = pace_all-hz_max rs _
pace_all-hz_max (SendResult.failed ∷ rs) p = pace_all-hz_max rs _

-- A success brings the rate nearer, or the next step nearer.
sent-nearer :
    (k : ℕ) (p : Pacing)
    → IsPaced p
    → 32 * (p.hz_max - p.hz) ≤ suc k + p.consecutive_tx_ok
    → 32 * (p.hz_max - (pace_sent p).hz) ≤ k + (pace_sent p).consecutive_tx_ok
unfolding pace_sent
sent-nearer k p h near = elim (Bool-cases (leb 32 (min (p.consecutive_tx_ok + 1) 65_535))) [
  | inl up ↦ rw up (omega (arith, h.streak, h.ceiling, h.top))
  | inr same ↦ rw same (omega (arith, h.streak))
]

climb :
    (k : ℕ) (p : Pacing)
    → IsPaced p
    → 32 * (p.hz_max - p.hz) ≤ k + p.consecutive_tx_ok
    → (pace_all (successes k) p).hz ≡ p.hz_max
unfolding pace pace_sent
climb zero p h near = omega (arith, h.streak, h.ceiling)
climb (suc k) p h near =
    climb k (schedule_next (pace true SendResult.sent p)) (pace-IsPaced SendResult.sent p h)
      (sent-nearer k p h near)

pace_all-hz_min : (rs : List SendResult) (p : Pacing) → (pace_all rs p).hz_min ≡ p.hz_min
unfolding pace pace_sent pace_busy
pace_all-hz_min [] p = refl
pace_all-hz_min (SendResult.sent ∷ rs) p = pace_all-hz_min rs _
pace_all-hz_min (SendResult.busy ∷ rs) p = pace_all-hz_min rs _
pace_all-hz_min (SendResult.failed ∷ rs) p = pace_all-hz_min rs _

-- With adaptive pacing from the start of a loop, whatever the results of the sends so far: the
-- rate lies between the floor and the clamped frequency, and after 32 times the clamped frequency
-- further successes the rate and its interval are back at the clamped frequency's.
pub pace_all-recovers :
    (freq now_us k : ℕ) (rs : List SendResult)
    → 32 * clamp_hz freq ≤ k
    → let p : Pacing = pace_all rs (new_pacing freq true now_us) in
      let q : Pacing = pace_all (successes k) p in
      ((floor_hz (clamp_hz freq) ≤ p.hz) × (p.hz ≤ clamp_hz freq))
      × ((q.hz ≡ clamp_hz freq) × (q.interval_us ≡ hz_to_interval_us (clamp_hz freq)))
unfolding new_pacing
pace_all-recovers freq now_us k rs enough =
    let p : Pacing = pace_all rs (new_pacing freq true now_us) in
    let h : IsPaced p = pace_all-IsPaced rs _ (new_pacing-IsPaced freq now_us) in
    let top : p.hz_max ≡ clamp_hz freq = pace_all-hz_max rs (new_pacing freq true now_us) in
    let bottom : p.hz_min ≡ floor_hz (clamp_hz freq) =
      pace_all-hz_min rs (new_pacing freq true now_us) in
    let up : (pace_all (successes k) p).hz ≡ clamp_hz freq =
      climb k p h (omega (arith, top)) ∙ top in
    (
      (omega (arith, h.floor, bottom), omega (arith, h.ceiling, top)),
      (up, (pace_all-IsPaced (successes k) p h).interval ∙ ap hz_to_interval_us up),
    )
