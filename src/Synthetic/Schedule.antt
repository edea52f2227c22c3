-- ===== src/Synthetic/Schedule.antt =====
-- Which report comes when.
use native.Mathlib.Decide.{dec_lt}
use esp_csi_rs.Base.{
  min, ltb, leb, ◌&&◌, if◌then◌else◌, if-true, if-false, ℕ, zero, suc, ◌+◌, ◌*◌, ◌/◌, ◌%◌, ◌^◌, ◌<◌,
  ◌≤◌, Bool, true, Option, none, some, List, ◌≡◌, inl, inr, refl, sym, ap, ◌∙◌, subst, length,
  Bool-cases, arith,
}
use native.Mathlib.Nat.{div-eq_of_lt, mod-eq_of_lt, mod-lt, mod-le}
use esp_csi_rs.Base.I8.{minus_nat, result_i8}
use esp_csi_rs.Mac.{Mac}
use esp_csi_rs.Wire.{CsiFrame, Stimulus}
use esp_csi_rs.Synthetic.{
  SyntheticBf, advance, frame_from, frame_with, synthetic_rssi, new_synthetic, next_frame,
  responder_at,
}
use esp_csi_rs.Synthetic.After.{
  first_of, on_next, frame_at, IsAfter, responder_at-there, advance-IsAfter, synthetic_rssi-some,
  frame_at-suc, rng_after,
}

-- The stimulus and the time of a report.
abbrev pub stamp : Option CsiFrame → Option (Stimulus × ℕ)
stamp none = none
stamp (some f) = some (f.stimulus, f.meta.timestamp_us)

frame_at-zero :
    (checks : Bool) (s : SyntheticBf) (ta : Mac)
    → (checks ≡ true → s.next_responder < 30)
    → responder_at s.responders s.next_responder ≡ some ta
    → stamp (frame_at checks 0 s)
      ≡ some (Stimulus.controlled s.setup_id s.instance_id ta, s.now_us + s.next_responder * 50)
unfolding frame_at next_frame
frame_at-zero checks s ta few here =
    let (rssi, strength) = synthetic_rssi-some checks s.next_responder few in
    ap (λ m. stamp (first_of (frame_from checks s m))) here
    ∙ ap (λ o. stamp (first_of (frame_with s ta o))) strength

turn_below :
    (checks : Bool) (rs : List Mac) (s : SyntheticBf) (n last : ℕ)
    → 0 < length rs
    → n ≤ last
    → (checks ≡ true → min (length rs) (suc last) ≤ 30)
    → s.next_responder ≡ n % length rs
    → checks ≡ true
    → s.next_responder < 30
turn_below checks rs s n last pos le few turn on =
    omega (arith, few on, turn, mod-lt n pos, mod-le n (length rs))

frame_at-IsAfter :
    (checks : Bool) (setup_id : ℕ) (rs : List Mac) (period m n : ℕ) (s : SyntheticBf) (ta : Mac)
    → 0 < length rs
    → (checks ≡ true → min (length rs) (suc (n + m)) ≤ 30)
    → IsAfter setup_id rs period n s
    → responder_at rs ((n + m) % length rs) ≡ some ta
    → stamp (frame_at checks m s)
      ≡ some (
        Stimulus.controlled setup_id ((n + m) / length rs % 2 ^ 16) ta,
        (n + m) / length rs * period + (n + m) % length rs * 50,
      )
frame_at-IsAfter checks setup_id rs period zero n s ta pos few w there =
    let whole : n + 0 ≡ n = omega arith in
    let here : responder_at s.responders s.next_responder ≡ some ta =
      rw (w.macs, w.turn) (subst (λ k. responder_at rs (k % length rs) ≡ some ta) whole there) in
    frame_at-zero checks s ta (turn_below checks rs s n (n + 0) pos (omega arith) few w.turn) here
    ∙ rw (whole, w.id, w.turn, w.sounding, w.clock) refl
frame_at-IsAfter checks setup_id rs period (suc m) n s ta pos few w there =
    let (now, at) = responder_at-there rs (n % length rs) (mod-lt n pos) in
    let here : responder_at s.responders s.next_responder ≡ some now = rw (w.macs, w.turn) at in
    let later : n + suc m ≡ suc n + m = omega arith in
    ap stamp (
      frame_at-suc checks m s now
        (turn_below checks rs s n (n + suc m) pos (omega arith) few w.turn) here)
    ∙ rw later (
        frame_at-IsAfter checks setup_id rs period m (suc n) (advance s (rng_after s)) ta pos
          (λ on. omega (arith, few on)) (advance-IsAfter setup_id rs period n s (rng_after s) pos w)
          (subst (λ k. responder_at rs (k % length rs) ≡ some ta) later there))

-- A checked build panics at the 31st responder.
synthetic_rssi-none : synthetic_rssi true 30 ≡ none
unfolding synthetic_rssi result_i8 minus_nat
synthetic_rssi-none = refl

frame_at-none :
    (m : ℕ) (s : SyntheticBf) (ta : Mac)
    → s.next_responder ≡ 30
    → responder_at s.responders s.next_responder ≡ some ta
    → frame_at true m s ≡ none
unfolding frame_at next_frame
frame_at-none zero s ta turn here =
    ap (λ m. first_of (frame_from true s m)) here
    ∙ ap (λ o. first_of (frame_with s ta o)) (ap (synthetic_rssi true) turn ∙ synthetic_rssi-none)
frame_at-none (suc m) s ta turn here =
    ap (λ o. on_next (frame_at true m) (frame_from true s o)) here
    ∙ ap (λ o. on_next (frame_at true m) (frame_with s ta o))
        (ap (synthetic_rssi true) turn ∙ synthetic_rssi-none)

frame_at-panics :
    (setup_id : ℕ) (rs : List Mac) (period m n : ℕ) (s : SyntheticBf)
    → 30 < length rs
    → n ≤ 30
    → 30 ≤ n + m
    → IsAfter setup_id rs period n s
    → frame_at true m s ≡ none
frame_at-panics setup_id rs period zero n s many le reaches w =
    let (now, at) = responder_at-there rs n (omega arith) in
    let turn : s.next_responder ≡ n = w.turn ∙ mod-eq_of_lt (omega arith) in
    frame_at-none 0 s now (omega arith) (rw (w.macs, turn) at)
frame_at-panics setup_id rs period (suc m) n s many le reaches w =
    let (now, at) = responder_at-there rs n (omega arith) in
    let turn : s.next_responder ≡ n = w.turn ∙ mod-eq_of_lt (omega arith) in
    let here : responder_at s.responders s.next_responder ≡ some now = rw (w.macs, turn) at in
    let kept = advance-IsAfter setup_id rs period n s (rng_after s) (omega arith) w in
    elim (dec_lt n 30) [
      | yes below ↦
          frame_at-suc true m s now (λ on. omega arith) here
          ∙ frame_at-panics setup_id rs period m (suc n) (advance s (rng_after s)) many
              (omega arith) (omega arith) kept
      | no last ↦ frame_at-none (suc m) s now (omega arith) here
    ]

-- Where a checked build panics: it has come to the 31st responder.
abbrev pub panics : Bool → ℕ → ℕ → Bool
panics checks responders n = checks && (ltb 30 responders && leb 30 n)

fresh-IsAfter :
    (setup_id : ℕ) (rs : List Mac) (ng period seed : ℕ)
    → 0 < length rs
    → IsAfter setup_id rs period 0 (new_synthetic setup_id rs ng period seed)
fresh-IsAfter setup_id rs ng period seed pos = record {
  id = refl;
  macs = refl;
  period_us = refl;
  turn = sym (mod-eq_of_lt pos);
  sounding = ap (λ q. q % 2 ^ 16) (sym (div-eq_of_lt pos));
  clock = rw (div-eq_of_lt pos) (omega arith);
}

-- A new source with at least one responder: call number n of `next_frame`, from 0, with n = q * R
-- + r for R responders, is a report of responder r, stamped with the setup, the instance q modulo
-- 2^16 and the time q periods and r times 50 microseconds after the start; but a build that
-- checks overflows panics from call 30 on where there are more than 30 responders, and only
-- there.
pub frame_at-new_synthetic :
    (checks : Bool) (setup_id : ℕ) (rs : List Mac) (ng period seed n : ℕ) (ta : Mac)
    → responder_at rs (n % length rs) ≡ some ta
    → 0 < length rs
    → stamp (frame_at checks n (new_synthetic setup_id rs ng period seed)) ≡ (
        if panics checks (length rs) n
        then none
        else some (
          Stimulus.controlled setup_id (n / length rs % 2 ^ 16) ta,
          n / length rs * period + n % length rs * 50,
        ))
frame_at-new_synthetic checks setup_id rs ng period seed n ta there pos =
    let fresh : SyntheticBf = new_synthetic setup_id rs ng period seed in
    let own : 0 + n ≡ n = omega arith in
    let w = fresh-IsAfter setup_id rs ng period seed pos in
    elim (Bool-cases (panics checks (length rs) n)) [
      | inl p ↦
          let on : checks ≡ true = ground (arith, p) in
          let many : 30 < length rs = ground (arith, p) in
          let reaches : 30 ≤ 0 + n = ground (arith, p) in
          ap (λ c. stamp (frame_at c n fresh)) on
          ∙ ap stamp (frame_at-panics setup_id rs period n 0 fresh many (omega arith) reaches w)
          ∙ sym (if-true _ _ p)
      | inr p ↦
          subst
            (λ k.
              stamp (frame_at checks n fresh)
              ≡ some (
                Stimulus.controlled setup_id (k / length rs % 2 ^ 16) ta,
                k / length rs * period + k % length rs * 50,
              ))
            own
            (frame_at-IsAfter checks setup_id rs period n 0 fresh ta pos
              (λ on. ground (arith, p, on)) w (rw own there))
          ∙ sym (if-false _ _ p)
    ]
