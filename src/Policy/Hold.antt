-- ===== src/Policy/Hold.antt =====
-- The hold window of threshold-based reporting, over a whole run.
use esp_csi_rs.Base.{
  ℕ, ◌+◌, ◌*◌, ◌≤◌, ◌≡◌, refl, ap, ap₂, ◌∙◌, Bool, false, ◌&&◌, ◌||◌, inl, inr, List, [], ◌∷◌, leb,
  ltb, Bool-cases, arith,
}
use esp_csi_rs.Policy.{ThresholdState, new_threshold, decide}

-- A scored measurement: its score, and the time of the decision.
pub record Scored : Type 0 where
  pub value : ℕ
  pub at : ℕ

-- `decide` on one measurement after another, at a fixed policy.
unfoldable pub decide_all : ThresholdState → ℕ → ℕ → List Scored → List Bool
decide_all s level hold_ms [] = []
decide_all s level hold_ms (e ∷ es) =
    let (s', keep) = decide s e.value level hold_ms e.at in keep ∷ decide_all s' level hold_ms es

-- Whether a crossing among `past` opened a window that is still open at `now`.
unfoldable pub held : ℕ → ℕ → List Scored → ℕ → Bool
held level hold_ms [] now = false
held level hold_ms (e ∷ past) now =
    leb level e.value && ltb now (e.at + hold_ms * 1000) || held level hold_ms past now

-- The measurements to report: those that cross, and those inside the window of an earlier crossing.
-- `past` has the earlier measurements, latest first.
unfoldable pub reported : ℕ → ℕ → List Scored → List Scored → List Bool
reported level hold_ms past [] = []
reported level hold_ms past (e ∷ es) =
    (leb level e.value || held level hold_ms past e.at) ∷ reported level hold_ms (e ∷ past) es

-- The times do not go back, from `t` on.
abbrev pub IsOrdered : ℕ → List Scored → Type 0
IsOrdered t [] = Unit {0}
IsOrdered t (e ∷ es) = (t ≤ e.at) × IsOrdered e.at es

-- The state stands for the past: its deadline is that of the latest crossing.
abbrev Stands : ℕ → ℕ → ThresholdState → List Scored → ℕ → Type 0
Stands level hold_ms s past t =
    (now : ℕ) → t ≤ now → ltb now s.hold_until_us ≡ held level hold_ms past now

abbrev Until : ℕ → ℕ → ThresholdState → ℕ → Type 0
Until level hold_ms s t = s.hold_until_us ≤ t + hold_ms * 1000

decide-Stands :
    (level hold_ms : ℕ) (s : ThresholdState) (past : List Scored) (t : ℕ) (e : Scored)
    → t ≤ e.at
    → Until level hold_ms s t
    → Stands level hold_ms s past t
    → Stands level hold_ms (decide s e.value level hold_ms e.at).0 (e ∷ past) e.at
      × Until level hold_ms (decide s e.value level hold_ms e.at).0 e.at
unfolding decide held
decide-Stands level hold_ms s past t e le u st = elim (Bool-cases (leb level e.value)) [
  | inl cross ↦ rw cross (λ now h. ground (arith, st now (omega arith)), ground arith)
  | inr below ↦ rw below (λ now h. ground (arith, st now (omega arith)), ground arith)
]

decide-kept :
    (level hold_ms : ℕ) (s : ThresholdState) (value now : ℕ)
    → (decide s value level hold_ms now).1 ≡ leb level value || ltb now s.hold_until_us
unfolding decide
decide-kept level hold_ms s value now = ground arith

decide_all-reported :
    (level hold_ms : ℕ) (s : ThresholdState) (past : List Scored) (t : ℕ) (es : List Scored)
    → IsOrdered t es
    → Until level hold_ms s t
    → Stands level hold_ms s past t
    → decide_all s level hold_ms es ≡ reported level hold_ms past es
unfolding decide_all reported
decide_all-reported level hold_ms s past t [] o u st = refl
decide_all-reported level hold_ms s past t (e ∷ es) o u st =
    let (st', u') = decide-Stands level hold_ms s past t e o.0 u st in
    ap₂ ◌∷◌
      (decide-kept level hold_ms s e.value e.at ∙ ap (λ b. leb level e.value || b) (st e.at o.0))
      (decide_all-reported level hold_ms (decide s e.value level hold_ms e.at).0 (e ∷ past) e.at es
        o.1 u' st')

-- At a fixed policy and over times that do not go back, a measurement is reported exactly if it
-- scores at least the level or an earlier one that did is less than `hold_ms` old.
pub decide_all_lem :
    (level hold_ms t : ℕ) (es : List Scored)
    → IsOrdered t es
    → decide_all new_threshold level hold_ms es ≡ reported level hold_ms [] es
unfolding held
decide_all_lem level hold_ms t es o =
    decide_all-reported level hold_ms new_threshold [] t es o (omega arith) (λ now h. ground arith)
