-- ===== src/Delivery/Admit.antt =====
-- src/lib/csi/delivery.rs: `policy_admits` and `policy_admits_frame`.
use esp_csi_rs.Base.{ℕ, Bool, true, false, ◌&&◌, Option, none, some, List, [], ◌==◌, if◌then◌else◌}
use esp_csi_rs.Base.Int.{ℤ}
use esp_csi_rs.Wire.{CsiFrame, CsiPayload}
use esp_csi_rs.Policy.{new_threshold, new_decimator, score, decide, tick}
use esp_csi_rs.Stats.{Stats, record_suppressed}
use esp_csi_rs.Delivery.{Delivery, policy_report, policy_threshold, policy_decimate}

-- `if POLICY_RESET.swap(false) { … }`.
abbrev pub take_reset : Delivery → Delivery
take_reset d = record d {
  policy_reset = false;
  threshold = if d.policy_reset then new_threshold else d.threshold;
  decimator = if d.policy_reset then new_decimator else d.decimator;
}

-- The `match` on the policy's kind: the new state, whether to deliver, and the score.
unfoldable pub admit : List ℤ → ℕ → Delivery → Delivery × Bool × ℕ
unfolding score decide tick
admit buf now_us d =
    if d.policy_kind == policy_threshold
    then (let (t, s) = score d.threshold buf in
        let (t', keep) = decide t s d.policy_a d.policy_b now_us in
        (record d { threshold = t' }, keep, s))
    else if d.policy_kind == policy_decimate
    then (let (c, keep) = tick d.decimator d.policy_a in (record d { decimator = c }, keep, 0))
    else (d, true, 0)

unfoldable pub policy_admits : List ℤ → ℕ → Delivery → Delivery × Bool × ℕ
unfolding admit
policy_admits buf now_us d = admit buf now_us (take_reset d)

-- The buffer that is judged; `none` for a payload that passes a threshold policy unscored.
abbrev pub judged : CsiPayload → ℕ → Option (List ℤ)
judged (CsiPayload.esp_raw chip layout first_word_invalid bytes) kind = some bytes
judged _ kind = if kind == policy_threshold then none else some []

-- The frame as it is delivered, with its payload replaced under a variation-only threshold.
abbrev pub vary : Delivery → ℕ → CsiFrame → CsiFrame
vary d score' f =
    if d.policy_kind == policy_threshold && d.policy_variation
    then record f { payload = CsiPayload.variation score' }
    else f

-- `policy_admits_frame`: the new state, and the frame if it is admitted.
unfoldable pub policy_admits_frame :
    ℕ → CsiFrame → Delivery → Stats → Delivery × Stats × Option CsiFrame
unfolding policy_admits
policy_admits_frame now_us f d st =
    if d.policy_kind == policy_report
    then (d, st, some f)
    else (elim (judged f.payload d.policy_kind) [
      | none ↦ (d, st, some f)
      | some buf ↦
          (let (d', keep, s) = policy_admits buf now_us d in
            if keep then (d', st, some (vary d' s f)) else (d', record_suppressed st, none))
    ])
