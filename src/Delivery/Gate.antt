-- ===== src/Delivery/Gate.antt =====
-- The two filters, and the policy in force.
use esp_csi_rs.Base.{
  ℕ, max, ◌≡◌, refl, sym, ap, ◌∙◌, Bool, true, false, not, ◌&&◌, ◌||◌, Option, none, some, ◌==◌,
  ltb, leb, if◌then◌else◌, arith,
}
use esp_csi_rs.Mac.{Mac, IsMac, zero_mac, mac_eq, pack_mac}
use esp_csi_rs.Mac.Pack.{pack_mac-eq}
use esp_csi_rs.Model.{ReportTo, Reporting, reports}
use esp_csi_rs.Delivery.{
  Delivery, apply_publish_gate, refresh_filter_active, set_csi_peer_filter, set_csi_min_sig_mode,
  csi_passes_filter, runtime_reporting, set_runtime_reporting,
}

-- What a policy reads back as: a decimation factor of 0 becomes 1.
unfoldable pub in_force : Reporting → Reporting
in_force (Reporting.decimate n) = Reporting.decimate (max n 1)
in_force (Reporting.report to) = Reporting.report to
in_force (Reporting.threshold_based t) = Reporting.threshold_based t
in_force Reporting.never = Reporting.never

-- The policy in force reads back as the one set last, a decimation factor of 0 as 1, and the node
-- reports exactly if it is not `None`.
pub runtime_reporting-set_runtime_reporting :
    (policy : Reporting) (d : Delivery)
    → (runtime_reporting (set_runtime_reporting policy d) ≡ in_force policy)
      × ((set_runtime_reporting policy d).reports ≡ reports policy)
unfolding runtime_reporting set_runtime_reporting in_force apply_publish_gate
runtime_reporting-set_runtime_reporting (Reporting.report ReportTo.host) d = (refl, refl)
runtime_reporting-set_runtime_reporting (Reporting.report ReportTo.local) d = (refl, refl)
runtime_reporting-set_runtime_reporting (Reporting.threshold_based t) d = (refl, refl)
runtime_reporting-set_runtime_reporting (Reporting.decimate n) d = (refl, refl)
runtime_reporting-set_runtime_reporting Reporting.never d = (refl, refl)

-- Whether a frame's class is wanted.
abbrev pub mode_wanted : Option ℕ → ℕ → Bool
mode_wanted none least = true
mode_wanted (some mode) least = leb least mode

-- The decision of `csi_passes_filter` by its three tests.
abbrev decision : Bool → Bool → ℕ → Option ℕ → Bool
decision is_zero is_own least mode =
    if not (not is_zero || not (least == 0))
    then true
    else if not is_zero && not is_own
    then false
    else (elim mode [ none ↦ true | some m ↦ not (not (least == 0) && ltb m least) ])

decision_lem :
    (is_zero is_own : Bool) (least : ℕ) (mode : Option ℕ)
    → decision is_zero is_own least mode ≡ ((is_zero || is_own) && mode_wanted mode least)
decision_lem true true least none = ground arith
decision_lem true false least none = ground arith
decision_lem false true least none = ground arith
decision_lem false false least none = ground arith
decision_lem true true least (some m) = ground arith
decision_lem true false least (some m) = ground arith
decision_lem false true least (some m) = ground arith
decision_lem false false least (some m) = ground arith

pack_mac-zero_mac : pack_mac zero_mac ≡ 0
unfolding pack_mac
pack_mac-zero_mac = refl

zero_mac-IsMac : IsMac zero_mac
zero_mac-IsMac = record {
  r0 = omega arith;
  r1 = omega arith;
  r2 = omega arith;
  r3 = omega arith;
  r4 = omega arith;
  r5 = omega arith;
}

-- With the address filter set and then the class filter, both addresses of six bytes, a frame
-- passes exactly if the wanted address is zero or its own, and its class, where the radio reports
-- one, is at least the wanted one.
pub csi_passes_filter_lem :
    (wanted source : Mac) (least : ℕ) (mode : Option ℕ) (d : Delivery)
    → IsMac wanted
    → IsMac source
    → csi_passes_filter source mode (set_csi_min_sig_mode least (set_csi_peer_filter wanted d))
      ≡ ((mac_eq wanted zero_mac || mac_eq source wanted) && mode_wanted mode least)
unfolding csi_passes_filter set_csi_min_sig_mode set_csi_peer_filter refresh_filter_active
csi_passes_filter_lem wanted source least mode d v w =
    let cleared : (pack_mac wanted == 0) ≡ mac_eq wanted zero_mac =
      ap (λ t. pack_mac wanted == t) (sym pack_mac-zero_mac)
      ∙ pack_mac-eq wanted zero_mac v zero_mac-IsMac in
    let own : (pack_mac source == pack_mac wanted) ≡ mac_eq source wanted =
      pack_mac-eq source wanted w v in
    rw (cleared, own) (decision_lem (mac_eq wanted zero_mac) (mac_eq source wanted) least mode)
