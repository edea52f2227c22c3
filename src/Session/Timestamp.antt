-- ===== src/Session/Timestamp.antt =====
-- Sequences of receive times through `widen_timestamp`.
use esp_csi_rs.Base.{
  ℕ, Bool, ◌+◌, ◌/◌, ◌%◌, ◌^◌, ◌≤◌, ◌<◌, ◌≡◌, refl, ap₂, max, List, [], ◌∷◌, arith,
}
use native.Mathlib.Decide.{dec_le}
use esp_csi_rs.Mac.{Mac}
use esp_csi_rs.Session.{Session, begin_run, half, widen_timestamp}

-- The state stands for the latest true time seen, `t`.
pub record Tracks (t : ℕ) (s : Session) : Type 0 where
  pub raw : s.ts_last_raw ≡ t % 2 ^ 32
  pub wraps : s.ts_wraps ≡ t / 2 ^ 32

-- A later frame within half the range, or any before the first wrap, is taken at its true time.
widen_forward :
    (t u : ℕ) (s : Session)
    → Tracks t s
    → t ≤ u
    → u ≤ t + half
    → u < 2 ^ 64
    → Tracks u (widen_timestamp (u % 2 ^ 32) s).0 × ((widen_timestamp (u % 2 ^ 32) s).1 ≡ u)
unfolding widen_timestamp
widen_forward t u s k le near fits = ground arith

widen_late :
    (t u : ℕ) (s : Session)
    → Tracks t s
    → u ≤ t
    → t ≤ u + half
    → Tracks t (widen_timestamp (u % 2 ^ 32) s).0 × ((widen_timestamp (u % 2 ^ 32) s).1 ≡ u)
unfolding widen_timestamp
widen_late t u s k le near = ground arith

-- The results for frames whose true receive times are given; the radio reports their low 32 bits.
unfoldable pub widen_all : List ℕ → Session → List ℕ
widen_all [] s = []
widen_all (u ∷ us) s = let (s', value) = widen_timestamp (u % 2 ^ 32) s in value ∷ widen_all us s'

-- Each time is at most half the 32-bit range from the latest time so far, `t`, on either side.
abbrev pub IsNear : ℕ → List ℕ → Type 0
IsNear t [] = Unit {0}
IsNear t (u ∷ us) = (u ≤ t + half) × (t ≤ u + half) × (u < 2 ^ 64) × IsNear (max t u) us

Tracks-max : (t u : ℕ) (s : Session) → Tracks t s → u ≤ t → Tracks (max t u) s
Tracks-max t u s k le = let e : max t u ≡ t = omega arith in rw e k

widen_all_tracked :
    (us : List ℕ) (t : ℕ) (s : Session) → Tracks t s → IsNear t us → widen_all us s ≡ us
unfolding widen_all
widen_all_tracked [] t s k n = refl
widen_all_tracked (u ∷ us) t s k n = elim (dec_le u t) [
  | yes late ↦
      let (k', e) = widen_late t u s k late n.1 in
      ap₂ ◌∷◌ e (
        widen_all_tracked us (max t u) (widen_timestamp (u % 2 ^ 32) s).0 (Tracks-max t u _ k' late)
          n.3)
  | no later ↦
      let (k', e) = widen_forward t u s k (omega arith) n.0 n.2 in
      let latest : max t u ≡ u = omega arith in
      ap₂ ◌∷◌ e
        (widen_all_tracked us (max t u) (widen_timestamp (u % 2 ^ 32) s).0 (rw latest k') n.3)
]

widen_first :
    (u : ℕ) (s : Session)
    → u < 2 ^ 32
    → s.ts_last_raw ≡ 0
    → s.ts_wraps ≡ 0
    → Tracks u (widen_timestamp (u % 2 ^ 32) s).0 × ((widen_timestamp (u % 2 ^ 32) s).1 ≡ u)
unfolding widen_timestamp
widen_first u s h last wraps = ground arith

-- From the start of a run, on a clock whose first frame comes before its first 32-bit wrap: as
-- long as each frame's true time is at most half the 32-bit range from the latest one so far,
-- earlier or later, and below 2^64, every stamped time is the true one, over any number of wraps.
pub widen_all-begin_run :
    (base_mac : Mac) (random : ℕ) (controlled digest : Bool) (s : Session) (u : ℕ) (us : List ℕ)
    → u < 2 ^ 32
    → IsNear u us
    → widen_all (u ∷ us) (begin_run base_mac random controlled digest s) ≡ u ∷ us
unfolding widen_all begin_run
widen_all-begin_run base_mac random controlled digest s u us h n =
    let start : Session = begin_run base_mac random controlled digest s in
    let (k, e) = widen_first u start h refl refl in
    ap₂ ◌∷◌ e (widen_all_tracked us u (widen_timestamp (u % 2 ^ 32) start).0 k n)
