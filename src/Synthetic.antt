-- ===== src/Synthetic.antt =====
-- src/lib/wire/synthetic.rs: the generator of measurement reports. `checks` is the build's
-- `overflow-checks`, which the dev profile has on and Cargo.toml turns off for the release profile.
-- `now_us` is a `u64` that no stream of reports brings to its wrap.
pub mod After
pub mod Schedule
mod Tests
use esp_csi_rs.Base.{
  ℕ, zero, suc, ◌+◌, ◌-◌, ◌*◌, ◌/◌, ◌%◌, ◌^◌, min, bit_xor, Bool, false, Option, none, some, List,
  [], ◌∷◌, ◌==◌, ltb, length, if◌then◌else◌,
}
use esp_csi_rs.Base.Int.{ℤ}
use esp_csi_rs.Base.I8.{◌-ℤ◌, ◌*ℤ◌, ◌>>=◌, as_i8, result_i8}
use esp_csi_rs.Mac.{Mac}
use esp_csi_rs.Wire.{
  Bandwidth, CsiFrame, CsiPayload, PpduFormat, RxMeta, Secondary, Stimulus, VendorRx, max_csi_bytes,
}

abbrev pub sc_start : ℤ
sc_start = ℤ.negsuc 121

abbrev pub sc_span : ℕ
sc_span = 245

pub record SyntheticBf : Type 0 where
  pub setup_id : ℕ
  pub responders : List Mac
  pub ng : ℕ
  pub instance_id : ℕ
  pub next_responder : ℕ
  pub periodicity_us : ℕ
  pub now_us : ℕ
  pub rng : ℕ

-- `SyntheticBf::new`; a generator cannot stay at 0.
abbrev pub new_synthetic : ℕ → List Mac → ℕ → ℕ → ℕ → SyntheticBf
new_synthetic setup_id responders ng periodicity_us seed = record {
  setup_id = setup_id;
  responders = responders;
  ng = if ng == 0 then 1 else ng;
  instance_id = 0;
  next_responder = 0;
  periodicity_us = periodicity_us;
  now_us = 0;
  rng = if seed == 0 then 2_654_435_769 else seed;
}

-- `n_sc`: `div_ceil`.
unfoldable pub n_sc : SyntheticBf → ℕ
n_sc s = (sc_span + (s.ng - 1)) / s.ng

-- `rand`: xorshift32.
unfoldable pub rand : ℕ → ℕ
rand x =
    let a = bit_xor x (x * 2 ^ 13 % 2 ^ 32) in
    let b = bit_xor a (a / 2 ^ 17) in bit_xor b (b * 2 ^ 5 % 2 ^ 32)

-- `motion`: a triangle wave over instances.
abbrev pub motion_of : ℕ → ℕ
motion_of instance_id = let phase = instance_id % 64 in if ltb phase 32 then phase else 64 - phase

-- `v`: the base is at least 96, so the sum stays positive.
abbrev pub sample : ℕ → ℕ → ℕ → ℕ → ℕ
sample k r motion x = min (((96 + (k * 7 + r * 29) % 64) + motion * (r + 1) / 2 + x % 5) - 2) 255

-- The loop over `n` subcarriers from `k` on, with the generator it leaves; a full buffer refuses.
unfoldable pub report_loop : ℕ → ℕ → ℕ → ℕ → ℕ → List ℕ × ℕ
unfolding rand
report_loop zero k r motion rng = ([], rng)
report_loop (suc n) k r motion rng =
    let x = rand rng in
    let rest = report_loop n (suc k) r motion x in
    if ltb k max_csi_bytes then (sample k r motion x ∷ rest.0, rest.1) else rest

-- `-40 - 3 * r as i8`: two operators, either of which may overflow.
unfoldable pub synthetic_rssi : Bool → ℕ → Option ℤ
unfolding result_i8
synthetic_rssi checks r = do
  product ← result_i8 checks (ℤ.pos 3 *ℤ as_i8 r)
  result_i8 checks (ℤ.negsuc 39 -ℤ product)

abbrev pub synthetic_meta : ℕ → ℕ → ℤ → RxMeta
synthetic_meta now_us r rssi = record {
  timestamp_us = now_us + r * 50;
  rssi = rssi;
  noise_floor = ℤ.negsuc 94;
  channel = 36;
  secondary = Secondary.none;
  bandwidth = some Bandwidth.mhz20;
  ppdu = PpduFormat.he_su;
  mcs = none;
  stbc = some false;
  sgi = none;
  n_rx = 1;
  n_ss = some 1;
  antenna = none;
  sig_len = 0;
  rx_state = 0;
  not_sounding = some false;
  aggregation = some false;
  frame_seq = none;
  vendor = VendorRx.none;
}

abbrev pub synthetic_frame : SyntheticBf → Mac → ℤ → List ℕ → CsiFrame
synthetic_frame s ta rssi report = record {
  meta = synthetic_meta s.now_us s.next_responder rssi;
  stimulus = Stimulus.controlled s.setup_id s.instance_id ta;
  header = none;
  payload = CsiPayload.grouped s.ng 8 sc_start (n_sc s) 1 1 report;
}

-- `self.responders[r]`, which panics out of bounds.
abbrev pub responder_at : List Mac → ℕ → Option Mac
responder_at [] r = none
responder_at (mac ∷ rest) zero = some mac
responder_at (mac ∷ rest) (suc r) = responder_at rest r

-- The end of `next_frame`.
abbrev pub advance : SyntheticBf → ℕ → SyntheticBf
advance s rng =
    if suc s.next_responder == length s.responders
    then record s {
      rng = rng;
      next_responder = 0;
      instance_id = (s.instance_id + 1) % 2 ^ 16;
      now_us = s.now_us + s.periodicity_us;
    }
    else record s { rng = rng; next_responder = suc s.next_responder }

-- The report with its signal strength, and the end of the call.
abbrev pub frame_with : SyntheticBf → Mac → Option ℤ → Option (CsiFrame × SyntheticBf)
frame_with s ta none = none
frame_with s ta (some rssi) =
    let out = report_loop (n_sc s) 0 s.next_responder (motion_of s.instance_id) s.rng in
    some (synthetic_frame s ta rssi out.0, advance s out.1)

abbrev pub frame_from : Bool → SyntheticBf → Option Mac → Option (CsiFrame × SyntheticBf)
frame_from checks s none = none
frame_from checks s (some ta) = frame_with s ta (synthetic_rssi checks s.next_responder)

-- `none` is a panic.
unfoldable pub next_frame : Bool → SyntheticBf → Option (CsiFrame × SyntheticBf)
unfolding synthetic_rssi
next_frame checks s = frame_from checks s (responder_at s.responders s.next_responder)
