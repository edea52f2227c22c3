-- ===== src/Synthetic/After.antt =====
-- The generator after a number of reports.
use esp_csi_rs.Base.{
  ℕ, zero, suc, ◌+◌, ◌*◌, ◌/◌, ◌%◌, ◌^◌, ◌<◌, Bool, true, false, Option, none, some, List, [], ◌∷◌,
  ◌≡◌, inl, inr, refl, sym, ap, ◌∙◌, ◌==◌, length, Bool-cases, arith,
}
use native.Mathlib.Nat.{div-add-mod', div-eq_of_lt-le, mod-lt}
use esp_csi_rs.Base.Int.{ℤ}
use esp_csi_rs.Base.I8.{◌-ℤ◌, ◌*ℤ◌, as_i8, minus_nat, result_i8, result_i8-unchecked}
use esp_csi_rs.Mac.{Mac}
use esp_csi_rs.Wire.{CsiFrame}
use esp_csi_rs.Synthetic.{
  SyntheticBf, advance, frame_from, frame_with, synthetic_rssi, n_sc, motion_of, next_frame,
  report_loop, responder_at,
}

-- The report of call number `n`, from 0.
abbrev pub first_of : Option (CsiFrame × SyntheticBf) → Option CsiFrame
first_of none = none
first_of (some out) = some out.0

abbrev pub on_next :
    (SyntheticBf → Option CsiFrame) → Option (CsiFrame × SyntheticBf) → Option CsiFrame
on_next f none = none
on_next f (some out) = f out.1

unfoldable pub frame_at : Bool → ℕ → SyntheticBf → Option CsiFrame
frame_at checks zero s = first_of (next_frame checks s)
frame_at checks (suc n) s = on_next (frame_at checks n) (next_frame checks s)

-- A generator after `n` reports.
pub record IsAfter (setup_id : ℕ) (rs : List Mac) (period n : ℕ) (s : SyntheticBf) : Type 0 where
  pub id : s.setup_id ≡ setup_id
  pub macs : s.responders ≡ rs
  pub period_us : s.periodicity_us ≡ period
  pub turn : s.next_responder ≡ n % length rs
  pub sounding : s.instance_id ≡ n / length rs % 2 ^ 16
  pub clock : s.now_us ≡ n / length rs * period

div_suc_full : (n d : ℕ) → 0 < d → suc (n % d) ≡ d → (suc n / d ≡ n / d + 1) × (suc n % d ≡ 0)
div_suc_full n d pos full =
    let split : n / d * d + n % d ≡ n = div-add-mod' n d in
    let quot : suc n / d ≡ n / d + 1 = div-eq_of_lt-le d (grind arith) (grind arith) in
    let whole : suc n / d * d ≡ n / d * d + d = rw quot (grind arith) in
    let split' : suc n / d * d + suc n % d ≡ suc n = div-add-mod' (suc n) d in
    (quot, omega (arith, split, whole, split', full))

div_suc_part : (n d : ℕ) → suc (n % d) < d → (suc n / d ≡ n / d) × (suc n % d ≡ suc (n % d))
div_suc_part n d part =
    let split : n / d * d + n % d ≡ n = div-add-mod' n d in
    let quot : suc n / d ≡ n / d = div-eq_of_lt-le d (grind arith) (grind arith) in
    let whole : suc n / d * d ≡ n / d * d = ap (λ t. t * d) quot in
    let split' : suc n / d * d + suc n % d ≡ suc n = div-add-mod' (suc n) d in
    (quot, omega (arith, split, whole, split'))

pub advance-IsAfter :
    (setup_id : ℕ) (rs : List Mac) (period n : ℕ) (s : SyntheticBf) (rng : ℕ)
    → 0 < length rs
    → IsAfter setup_id rs period n s
    → IsAfter setup_id rs period (suc n) (advance s rng)
advance-IsAfter setup_id rs period n s rng pos w =
    elim (Bool-cases (suc (n % length rs) == length rs)) [
      | inl last ↦
          let e = div_suc_full n (length rs) pos (ground (arith, last)) in
          rw (w.turn, w.macs, last)
            (record {
              id = w.id;
              macs = refl;
              period_us = w.period_us;
              turn = sym e.1;
              sounding = omega (arith, e.0, w.sounding);
              clock = rw (w.clock, w.period_us, e.0) (grind arith);
            })
      | inr between ↦
          let e = div_suc_part n (length rs) (ground (arith, between, mod-lt n pos)) in
          rw (w.turn, w.macs, between)
            (record {
              id = w.id;
              macs = refl;
              period_us = w.period_us;
              turn = sym e.1;
              sounding = w.sounding ∙ sym (ap (λ q. q % 2 ^ 16) e.0);
              clock = w.clock ∙ sym (ap (λ q. q * period) e.0);
            })
    ]

pub responder_at-there :
    (rs : List Mac) (r : ℕ) → r < length rs → (ta : Mac) × (responder_at rs r ≡ some ta)
responder_at-there [] r h = absurd (ground (arith, h))
responder_at-there (mac ∷ rs) zero h = (mac, refl)
responder_at-there (mac ∷ rs) (suc r) h = responder_at-there rs r (omega arith)

-- A checked build has a signal strength up to responder 29, an unchecked one always.
pub synthetic_rssi-some :
    (checks : Bool) (r : ℕ)
    → (checks ≡ true → r < 30)
    → (rssi : ℤ) × (synthetic_rssi checks r ≡ some rssi)
unfolding synthetic_rssi result_i8 minus_nat
synthetic_rssi-some true r h =
    let below : r < 30 = h refl in
    let product : result_i8 true (ℤ.pos 3 *ℤ as_i8 r) ≡ some (ℤ.pos (3 * r)) = ground arith in
    (ℤ.negsuc (39 + 3 * r), rw product (ground arith))
synthetic_rssi-some false r h =
    let (product, e) = result_i8-unchecked (ℤ.pos 3 *ℤ as_i8 r) in
    let (rssi, e') = result_i8-unchecked (ℤ.negsuc 39 -ℤ product) in (rssi, rw (e, e') refl)

abbrev pub rng_after : SyntheticBf → ℕ
rng_after s = (report_loop (n_sc s) 0 s.next_responder (motion_of s.instance_id) s.rng).1

pub frame_at-suc :
    (checks : Bool) (m : ℕ) (s : SyntheticBf) (ta : Mac)
    → (checks ≡ true → s.next_responder < 30)
    → responder_at s.responders s.next_responder ≡ some ta
    → frame_at checks (suc m) s ≡ frame_at checks m (advance s (rng_after s))
unfolding frame_at next_frame
frame_at-suc checks m s ta few here =
    let (rssi, strength) = synthetic_rssi-some checks s.next_responder few in
    ap (λ o. on_next (frame_at checks m) (frame_from checks s o)) here
    ∙ ap (λ o. on_next (frame_at checks m) (frame_with s ta o)) strength
