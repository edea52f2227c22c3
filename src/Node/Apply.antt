-- ===== src/Node/Apply.antt =====
-- What `apply_measurement_setup` accepts, and a node-level setup through its wire form and back.
use esp_csi_rs.Base.{
  ℕ, ◌+◌, ◌*◌, ◌/◌, ◌≤◌, ◌<◌, max, Bool, true, false, not, ◌&&◌, ◌||◌, Option, none, some, List, [],
  ◌∷◌, ◌≡◌, refl, ap, ap₂, ◌∙◌, ◌==◌, is_none, subst, if◌then◌else◌, arith,
}
use native.Mathlib.Nat.{
  le-div_iff_mul-le, div-le_self, div-lt_iff_lt-mul, div-mul-le_self, lt-div-mul-add,
}
use esp_csi_rs.Mac.{Mac, mac_eq}
use esp_csi_rs.Wire.{Bandwidth}
use esp_csi_rs.Wire.Setup.{
  MeasurementSetup, StimulusParams, excludes_legacy, is_any, new_stimulus, only_he, rate_hz,
}
use esp_csi_rs.Wire.Setup.Rate.{rate_hz_exact}
use esp_csi_rs.Config.{Build}
use esp_csi_rs.Delivery.{Delivery}
use esp_csi_rs.Mode.{Mode}
use esp_csi_rs.Node.{
  Applied, Checked, CsiNode, NodeSetup, SetupError, SetupParameter, apply_measurement_setup,
  bandwidth_or_20, check_setup, check_stimulus, configured_bandwidth, emitter_config, finish, is_ax,
  is_raw, join_responder, other_width, other_widths, sounds, to_wire, with_periodicity_hz,
}
use esp_csi_rs.Node.Offers.{
  can_honour, can_sound, one_responder, configured_bandwidth-mode_width, mode_sounds, mode_width,
  sounds-mode_sounds,
}

abbrev pub is_accepted : Checked → Bool
is_accepted (Checked.refused e) = false
is_accepted (Checked.accepted filter rate) = true

-- A test that refuses, before a check.
is_accepted-if :
    {b y : Bool} (c : Bool) (e : SetupError) (x : Checked)
    → not c ≡ b
    → is_accepted x ≡ y
    → is_accepted (if c then Checked.refused e else x) ≡ b && y
is_accepted-if {y = y} true e x cb xy = ap (λ b. b && y) cb
is_accepted-if {y = y} false e x cb xy = xy ∙ ap (λ b. b && y) cb

not-not : (b : Bool) → not (not b) ≡ b
not-not true = refl
not-not false = refl

not-or : (a b : Bool) → not (not a || not b) ≡ a && b
not-or true true = refl
not-or true false = refl
not-or false b = refl

is_accepted-join_responder :
    (filter : Option Mac) (responders : List Mac) (hz : ℕ)
    → is_accepted (join_responder filter responders hz) ≡ one_responder filter responders
is_accepted-join_responder none [] hz = refl
is_accepted-join_responder (some t) [] hz = refl
is_accepted-join_responder none (one ∷ []) hz = refl
is_accepted-join_responder (some t) (one ∷ []) hz = chosen (mac_eq t one)
  where
    chosen :
        (same : Bool)
        → is_accepted (
            if same
            then Checked.accepted (some one) (some hz)
            else Checked.refused (SetupError.unsupported_stimulus SetupParameter.responders))
          ≡ same
    chosen true = refl
    chosen false = refl
is_accepted-join_responder none (one ∷ two ∷ rest) hz = refl
is_accepted-join_responder (some t) (one ∷ two ∷ rest) hz = refl

is_accepted-offers :
    (mode : Mode) (filter : Option Mac) (stimulus : Option StimulusParams)
    → is_accepted (check_stimulus (mode_sounds mode) (mode_width mode) filter stimulus)
      ≡ can_sound mode filter stimulus
is_accepted-offers mode filter none = refl
is_accepted-offers mode filter (some st) =
    is_accepted-if (not (mode_sounds mode)) _ _ (not-not (mode_sounds mode)) (
      is_accepted-if (not (is_raw st.report)) _ _ (not-not (is_raw st.report)) (
        is_accepted-if (not (st.ng == 1) || not (st.nb == 8)) _ _ (not-or (st.ng == 1) (st.nb == 8))
          (is_accepted-if st.trigger_based _ _ refl (
            is_accepted-if (other_width (mode_width mode) st.bandwidth) _ _ refl
              (is_accepted-join_responder filter st.responders (rate_hz st))))))

is_accepted-check_stimulus :
    (mode : Mode) (filter : Option Mac) (stimulus : Option StimulusParams)
    → is_accepted (check_stimulus (sounds mode) (configured_bandwidth mode) filter stimulus)
      ≡ can_sound mode filter stimulus
is_accepted-check_stimulus mode filter stimulus =
    ap₂ (λ s w. is_accepted (check_stimulus s w filter stimulus)) (sounds-mode_sounds mode)
      (configured_bandwidth-mode_width mode)
    ∙ is_accepted-offers mode filter stimulus

-- A formats test of the doc, and the two of the code.
can_select-split :
    (ax he any no_legacy rest : Bool)
    → not (he && not ax) && (not ((not any && not he) && not no_legacy) && rest)
      ≡ (if he then ax else any || no_legacy) && rest
can_select-split true true true no_legacy rest = refl
can_select-split true true false no_legacy rest = refl
can_select-split false true any no_legacy rest = refl
can_select-split true false true no_legacy rest = refl
can_select-split false false true no_legacy rest = refl
can_select-split true false false no_legacy rest = ap (λ b. b && rest) (not-not no_legacy)
can_select-split false false false no_legacy rest = ap (λ b. b && rest) (not-not no_legacy)

is_accepted-check_setup :
    (build : Build) (mode : Mode) (setup : MeasurementSetup)
    → is_accepted (check_setup build mode setup) ≡ can_honour build mode setup
unfolding check_setup can_honour
is_accepted-check_setup build mode setup =
    let formats = setup.acquisition.ppdu_formats in
    is_accepted-if (other_widths (configured_bandwidth mode) setup.acquisition.bandwidth) _ _
      (ap (λ w. not (other_widths w setup.acquisition.bandwidth))
        (configured_bandwidth-mode_width mode))
      (is_accepted-if (only_he formats && not (is_ax build)) _ _ refl (
          is_accepted-if
            ((not (is_any formats) && not (only_he formats)) && not (excludes_legacy formats)) _ _
            refl (is_accepted-check_stimulus mode setup.acquisition.transmitter setup.stimulus))
        ∙ can_select-split (is_ax build) (only_he formats) (is_any formats)
            (excludes_legacy formats) (can_sound mode setup.acquisition.transmitter setup.stimulus))

div-back_lem : (q hz : ℕ) → hz ≤ 1_000_000 / q → 1_000_000 / q < hz + 1 → 1_000_000 / q ≡ hz
div-back_lem q hz low high = omega arith

div-back : (hz : ℕ) → 1 ≤ hz → hz ≤ 1000 → 1_000_000 / (1_000_000 / hz) ≡ hz
div-back hz lo hi =
    let q_large : 1000 ≤ 1_000_000 / hz = (le-div_iff_mul-le lo).1 (omega arith) in
    let below : 1_000_000 / hz * hz ≤ 1_000_000 = div-mul-le_self 1_000_000 hz in
    let above : 1_000_000 < 1_000_000 / hz * hz + hz = lt-div-mul-add lo in
    div-back_lem (1_000_000 / hz) hz
      ((le-div_iff_mul-le (omega (arith, q_large))).1 (grind (arith, below)))
      ((div-lt_iff_lt-mul (omega (arith, q_large))).1 (grind (arith, below, above, q_large)))

-- A setup is taken on exactly if the mode's width and the chip can select what it asks for and
-- the mode sounds the channel as its stimulus asks; a setup that is refused leaves the node and
-- the filters as they were.
pub apply_measurement_setup-can_honour :
    (build : Build) (setup : MeasurementSetup) (a : Applied)
    → let out = apply_measurement_setup build setup a in
      let honoured = can_honour build a.node.mode setup in
      (is_none out.0 ≡ honoured) × ((if honoured then a else out.1) ≡ a)
unfolding apply_measurement_setup
apply_measurement_setup-can_honour build setup a =
    subst
      (λ h.
        (is_none (finish build setup a (check_setup build a.node.mode setup)).0 ≡ h)
        × ((if h then a else (finish build setup a (check_setup build a.node.mode setup)).1) ≡ a))
      (is_accepted-check_setup build a.node.mode setup)
      (finished (check_setup build a.node.mode setup))
  where
    finished :
        (c : Checked)
        → (is_none (finish build setup a c).0 ≡ is_accepted c)
          × ((if is_accepted c then a else (finish build setup a c).1) ≡ a)
    finished (Checked.refused e) = (refl, refl)
    finished (Checked.accepted filter rate) = (refl, refl)

same_width :
    (width bandwidth : Option Bandwidth)
    → other_width width (bandwidth_or_20 bandwidth) ≡ false
    → other_widths width bandwidth ≡ false
same_width width none same = refl
same_width width (some bandwidth) same = same

rate_hz-new_stimulus :
    (hz : ℕ) (bandwidth : Bandwidth)
    → 1 ≤ hz
    → hz ≤ 1000
    → rate_hz (new_stimulus (1_000_000 / max hz 1) bandwidth) ≡ hz
rate_hz-new_stimulus hz bandwidth lo hi =
    let own : max hz 1 ≡ hz = omega arith in
    let long : 1000 ≤ 1_000_000 / hz = (le-div_iff_mul-le lo).1 (omega arith) in
    rw own (
      rate_hz_exact (new_stimulus (1_000_000 / hz) bandwidth) (omega arith)
        (div-le_self 1_000_000 hz)
      ∙ div-back hz lo hi)

-- The wire form of a node-level setup of 1 to 1000 Hz, taken on by a node that sounds the
-- channel, is no emitter and is not configured for another width: the node has the setup's id and
-- exactly its periodicity, and nothing else changes.
pub apply_measurement_setup-to_wire :
    (build : Build) (s : NodeSetup) (hz : ℕ) (n : CsiNode) (d : Delivery)
    → 1 ≤ hz
    → hz ≤ 1000
    → sounds n.mode ≡ true
    → emitter_config n.mode ≡ none
    → other_width (configured_bandwidth n.mode) (bandwidth_or_20 s.bandwidth) ≡ false
    → apply_measurement_setup build
        (to_wire (with_periodicity_hz hz s))
        (record { node = n; delivery = d })
      ≡ (
        none,
        record {
          node = record n { setup = record n.setup { id = s.id; periodicity_hz = some hz } };
          delivery = d;
        },
      )
unfolding apply_measurement_setup check_setup to_wire only_he excludes_legacy is_any
apply_measurement_setup-to_wire build s hz n d lo hi sounding plain same =
    rw
      (
        sounding,
        same,
        same_width (configured_bandwidth n.mode) s.bandwidth same,
        rate_hz-new_stimulus hz (bandwidth_or_20 s.bandwidth) lo hi,
        plain,
      )
      refl
