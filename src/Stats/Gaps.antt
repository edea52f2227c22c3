-- ===== src/Stats/Gaps.antt =====
-- What the gap count says of one transmitter's stream.
use esp_csi_rs.Base.{
  ℕ, suc, ◌+◌, ◌-◌, ◌%◌, ◌^◌, ◌≤◌, ◌<◌, ◌≡◌, refl, ◌∙◌, true, false, ◌==◌, some, List, [], ◌∷◌,
  length, arith,
}
use esp_csi_rs.Base.Bits.{bit_and-mask}
use esp_csi_rs.Stats.{TxStats, touch, seq_diff, gap_before}

-- A frame with the number its transmitter gave it, without the wrap, or a retransmission, whose
-- header carries some sequence number.
pub data Heard : Type 0 where
  frame : (number : ℕ) → Heard
  repeated : (seq : ℕ) → Heard

-- The sum of the gaps that a sequence of frames of one transmitter adds to its entry.
unfoldable pub total_gap : ℕ → List Heard → TxStats → ℕ
total_gap now [] e = 0
total_gap now (Heard.frame u ∷ hs) e =
    let (e', gap) = touch now (some (u % 2 ^ 12)) (some false) e in gap + total_gap (now + 1) hs e'
total_gap now (Heard.repeated q ∷ hs) e =
    let (e', gap) = touch now (some q) (some true) e in gap + total_gap (now + 1) hs e'

-- The number of frames that are no retransmissions, and the number of the last one of them.
unfoldable pub heard : List Heard → ℕ
heard [] = 0
heard (Heard.frame u ∷ hs) = 1 + heard hs
heard (Heard.repeated q ∷ hs) = heard hs

unfoldable pub latest : ℕ → List Heard → ℕ
latest t [] = t
latest t (Heard.frame u ∷ hs) = latest u hs
latest t (Heard.repeated q ∷ hs) = latest t hs

-- Retransmissions aside, each frame is later than the one before it, and fewer than 500 later.
abbrev pub IsStream : ℕ → List Heard → Type 0
IsStream t [] = Unit {0}
IsStream t (Heard.frame u ∷ hs) = (t < u) × (u < t + 500) × IsStream u hs
IsStream t (Heard.repeated q ∷ hs) = IsStream t hs

seq_diff_lem : (t u : ℕ) → t < u → u < t + 500 → seq_diff (u % 2 ^ 12) (t % 2 ^ 12) ≡ u - t
seq_diff_lem t u lt near = bit_and-mask 12 _ ∙ omega arith

gap_before_lem :
    (t u : ℕ) → t < u → u < t + 500 → gap_before false (t % 2 ^ 12) (u % 2 ^ 12) ≡ u - t - 1
unfolding gap_before
gap_before_lem t u lt near = rw (seq_diff_lem t u lt near) (ground arith)

-- The entry after a frame that is numbered `t`.
pub record Follows (t : ℕ) (n : ℕ) (e : TxStats) : Type 0 where
  pub last : e.last_seq ≡ t % 2 ^ 12
  pub synced : e.resync ≡ false
  pub seen : 1 ≤ e.frames
  pub few : e.frames + n < 2 ^ 32

nonzero : (n : ℕ) → 1 ≤ n → (n == 0) ≡ false
nonzero n h = ground arith

touch_repeated :
    (now t n q : ℕ) (e : TxStats)
    → Follows t (suc n) e
    → ((touch now (some q) (some true) e).1 ≡ 0) × Follows t n (touch now (some q) (some true) e).0
unfolding touch
touch_repeated now t n q e f = rw (nonzero e.frames f.seen) (
  refl,
  record {
    last = f.last;
    synced = refl;
    seen = omega (arith, f.seen, f.few);
    few = omega (arith, f.few);
  },
)

touch_frame :
    (now t n u : ℕ) (e : TxStats)
    → Follows t (suc n) e
    → t < u
    → u < t + 500
    → ((touch now (some (u % 2 ^ 12)) (some false) e).1 ≡ u - t - 1)
      × Follows u n (touch now (some (u % 2 ^ 12)) (some false) e).0
unfolding touch
touch_frame now t n u e f lt near =
    rw (nonzero e.frames f.seen, f.synced, f.last)
      (
        gap_before_lem t u lt near,
        record {
          last = refl;
          synced = refl;
          seen = omega (arith, f.seen, f.few);
          few = omega (arith, f.few);
        },
      )

-- For a transmitter that is tracked and in step with its frame t: if each later frame heard is
-- fewer than 500 after the one before it, the frames heard and the gaps counted add up to the
-- frames sent, over any number of wraps of the 12-bit sequence number and with retransmissions
-- anywhere between, as long as fewer than 2^32 frames are counted.
pub total_gap-heard :
    (hs : List Heard) (now t : ℕ) (e : TxStats)
    → Follows t (length hs) e
    → IsStream t hs
    → heard hs + (total_gap now hs e + t) ≡ latest t hs
unfolding heard total_gap latest
total_gap-heard [] now t e f s = omega arith
total_gap-heard (Heard.frame u ∷ hs) now t e f s =
    let (gap, f') = touch_frame now t (length hs) u e f s.0 s.1 in
    let rest : heard hs
          + (total_gap (now + 1) hs (touch now (some (u % 2 ^ 12)) (some false) e).0 + u)
        ≡ latest u hs =
      total_gap-heard hs (now + 1) u (touch now (some (u % 2 ^ 12)) (some false) e).0 f' s.2 in
    omega (arith, gap, rest, s.0)
total_gap-heard (Heard.repeated q ∷ hs) now t e f s =
    let (gap, f') = touch_repeated now t (length hs) q e f in
    let rest : heard hs + (total_gap (now + 1) hs (touch now (some q) (some true) e).0 + t)
        ≡ latest t hs =
      total_gap-heard hs (now + 1) t (touch now (some q) (some true) e).0 f' s in
    omega (arith, gap, rest)

resynced : (e : TxStats) (now n : ℕ) → e.resync ≡ true → (touch now (some n) (some false) e).1 ≡ 0
unfolding touch gap_before
resynced e now n marked = rw marked (ground arith)

-- For a tracked transmitter whose entry is marked for a resync, before its frame count wraps: the
-- next frame with a sequence number counts no gap, but if a retransmission comes before it, the
-- mark is spent and the frame is compared with the number from before the mark.
pub touch-resync :
    (now q n : ℕ) (e : TxStats)
    → 1 ≤ e.frames
    → e.frames + 1 < 2 ^ 32
    → e.resync ≡ true
    → ((touch now (some n) (some false) e).1 ≡ 0)
      × ((touch (now + 1) (some n) (some false) (touch now (some q) (some true) e).0).1
          ≡ gap_before false e.last_seq n)
unfolding touch
touch-resync now q n e seen few marked =
    let again : ((e.frames + 1) % 2 ^ 32 == 0) ≡ false = ground arith in
    (resynced e now n marked, rw (nonzero e.frames seen, again) refl)
