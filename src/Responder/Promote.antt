-- ===== src/Responder/Promote.antt =====
-- Promotion: when a locked responder starts to report to the host.
use esp_csi_rs.Base.{
  ℕ, zero, suc, ◌+◌, ◌≤◌, min, ◌≡◌, refl, sym, ap, ◌∙◌, Bool, true, false, not, ◌&&◌, ◌||◌, Option,
  List, [], ◌∷◌, ◌++◌, ◌==◌, if◌then◌else◌, arith,
}
use esp_csi_rs.Mac.{Mac}
use esp_csi_rs.Model.{host_reporting}
use esp_csi_rs.EspNow.{EspNowConfig, EspNowDriver}
use esp_csi_rs.Protocol.{ControlPacket}
use esp_csi_rs.Delivery.{Delivery, set_runtime_reporting}
use esp_csi_rs.Pool.{PoolFrame}
use esp_csi_rs.Responder.{Responder}
use esp_csi_rs.Responder.Run.{
  View, view, view_follow, view_count, view_step, view_all, promotes, IsLocked, packets_from,
  ingest_all, ingest_all-view,
}

-- Whether the list starts with `n` packets of an initiator that does not report.
abbrev pub silent_run : ℕ → List Bool → Bool
silent_run zero ss = true
silent_run (suc n) [] = false
silent_run (suc n) (s ∷ ss) = s && silent_run n ss

-- Three in a row, anywhere.
abbrev pub three_silent : List Bool → Bool
three_silent [] = false
three_silent (s ∷ ss) = silent_run 3 (s ∷ ss) || three_silent ss

abbrev pub silences : List ControlPacket → List Bool
silences [] = []
silences (p ∷ ps) = not p.initiator_reports ∷ silences ps

-- How many packets in a row were silent so far.
data Phase : Type 0 where
  talking once twice host : Phase

abbrev IsPhase : Phase → View → Type 0
IsPhase Phase.talking v = v.silent ≡ false
IsPhase Phase.once v = (v.silent ≡ true) × (v.streak ≡ 1)
IsPhase Phase.twice v = (v.silent ≡ true) × (v.streak ≡ 2)
IsPhase Phase.host v = (v.silent ≡ true) × ((v.reports ≡ true) × (3 ≤ v.streak))

abbrev next : Phase → Bool → Phase
next ph false = Phase.talking
next Phase.talking true = Phase.once
next Phase.once true = Phase.twice
next Phase.twice true = Phase.host
next Phase.host true = Phase.host

-- What the silent packets so far leave to come.
abbrev owed : Phase → List Bool
owed Phase.talking = []
owed Phase.once = true ∷ []
owed Phase.twice = true ∷ true ∷ []
owed Phase.host = []

-- The third silent packet promotes a node that does not report.
abbrev third : Phase → Bool → Bool
third Phase.twice s = s
third ph s = false

or_true : (b : Bool) → (b || true) ≡ true
or_true true = refl
or_true false = refl

-- The new streak, in the phases that a silent packet continues.
streak_on : (n m : ℕ) → n ≡ m → m + 1 ≤ 255 → min (n + 1) 255 ≡ m + 1
streak_on n m e h = omega arith

streak_tests : (k m : ℕ) → k ≡ m → m ≤ 254 → (min (k + 1) 255 == 3) ≡ (m == 2)
streak_tests k m e h = ground arith

and_false : (b : Bool) → (b && false) ≡ false
and_false b = ground arith

promotes-phase :
    (ph : Phase) (s : Bool) (v : View) → IsPhase ph v → promotes s v ≡ (third ph s && not v.reports)
promotes-phase Phase.talking true v h = rw h refl
promotes-phase Phase.talking false v h = ap (λ b. b && not v.reports) (and_false _)
promotes-phase Phase.once true v h = rw (h.0, streak_tests v.streak 1 h.1 (omega arith)) refl
promotes-phase Phase.once false v h = ap (λ b. b && not v.reports) (and_false _)
promotes-phase Phase.twice true v h = rw (h.0, streak_tests v.streak 2 h.1 (omega arith)) refl
promotes-phase Phase.twice false v h = ap (λ b. b && not v.reports) (and_false _)
promotes-phase Phase.host true v h = rw h.1.0 (and_false _)
promotes-phase Phase.host false v h = ap (λ b. b && not v.reports) (and_false _)

next-IsPhase :
    (ph : Phase) (s : Bool) (v : View) → IsPhase ph v → IsPhase (next ph s) (view_follow s v)
next-IsPhase ph false v h = refl
next-IsPhase Phase.talking true v h = (refl, rw h refl)
next-IsPhase Phase.once true v h = (refl, rw h.0 (omega (arith, h.1)))
next-IsPhase Phase.twice true v h = (
  refl,
  (rw (promotes-phase Phase.twice true v h) (becomes v.reports), rw h.0 (omega (arith, h.1))),
)
  where
    becomes : (b : Bool) → (not b || b) ≡ true
    becomes true = refl
    becomes false = refl
next-IsPhase Phase.host true v h = (refl, (rw h.1.0 (or_true _), rw h.0 (omega (arith, h.1.1))))

-- A node that does not report and has heard three silent packets in a row reports to the host.
abbrev pub promoted : Bool → Bool → Delivery → Delivery
promoted reports three d =
    if not reports && three then set_runtime_reporting host_reporting d else d

-- The outcome of a packet, then of the rest.
abbrev Folds : Bool → Bool → Bool → Bool → Type 0
Folds reports now all' rest =
    ((reports || all') ≡ ((now || reports) || rest))
    × ((d : Delivery)
        → promoted reports all' d
          ≡ promoted (now || reports) rest
              (if now then set_runtime_reporting host_reporting d else d))

folds : (t reports rest : Bool) → Folds reports (t && not reports) (t || rest) rest
folds true true rest = (refl, λ d. refl)
folds false true rest = (refl, λ d. refl)
folds true false rest = (refl, λ d. refl)
folds false false rest = (refl, λ d. refl)

-- What is owed and the rest have three silent packets in a row.
three-owed :
    (ph : Phase) (s reports : Bool) (ss : List Bool)
    → (ph ≡ Phase.host → reports ≡ true)
    → Folds reports
        (third ph s && not reports)
        (three_silent (owed ph ++ (s ∷ ss)))
        (three_silent (owed (next ph s) ++ ss))
three-owed Phase.talking true r ss h = folds false r _
three-owed Phase.talking false r ss h = folds false r _
three-owed Phase.once true r ss h = folds false r _
three-owed Phase.once false r ss h = folds false r _
three-owed Phase.twice true r ss h = folds true r _
three-owed Phase.twice false r ss h = folds false r _
three-owed Phase.host s true ss h = (refl, λ d. refl)
three-owed Phase.host s false ss h = absurd (let e : false ≡ true = h refl in cc)

host-reports : (ph : Phase) (v : View) → IsPhase ph v → ph ≡ Phase.host → v.reports ≡ true
host-reports Phase.talking v h e = absurd cc
host-reports Phase.once v h e = absurd cc
host-reports Phase.twice v h e = absurd cc
host-reports Phase.host v h e = h.1.0

owed-few : (ph : Phase) → three_silent (owed ph ++ []) ≡ false
owed-few Phase.talking = refl
owed-few Phase.once = refl
owed-few Phase.twice = refl
owed-few Phase.host = refl

count-IsPhase : (ph : Phase) (n : ℕ) (v : View) → IsPhase ph v → IsPhase ph (view_count n v)
count-IsPhase Phase.talking n v h = h
count-IsPhase Phase.once n v h = h
count-IsPhase Phase.twice n v h = h
count-IsPhase Phase.host n v h = h

none_heard :
    (reports : Bool) (d : Delivery)
    → (reports ≡ (reports || false)) × (d ≡ promoted reports false d)
none_heard true d = (refl, refl)
none_heard false d = (refl, refl)

-- A run of packets, from any phase.
view_all-promoted :
    (ps : List ControlPacket) (ph : Phase) (v : View)
    → IsPhase ph v
    → ((view_all ps v).reports ≡ (v.reports || three_silent (owed ph ++ silences ps)))
      × ((view_all ps v).delivery
          ≡ promoted v.reports (three_silent (owed ph ++ silences ps)) v.delivery)
view_all-promoted [] ph v h = rw (owed-few ph) (none_heard v.reports v.delivery)
view_all-promoted (p ∷ ps) ph v h =
    let s : Bool = not p.initiator_reports in
    let after : Bool = three_silent (owed (next ph s) ++ silences ps) in
    let now : promotes s v ≡ (third ph s && not v.reports) = promotes-phase ph s v h in
    let (reports, delivery) =
      view_all-promoted ps (next ph s) (view_step p v)
        (next-IsPhase ph s _ (count-IsPhase ph p.sequence_number v h)) in
    let (r, d) = three-owed ph s v.reports (silences ps) (host-reports ph v h) in
    (
      reports ∙ (ap (λ b. (b || v.reports) || after) now ∙ sym r),
      delivery
          ∙ (ap
                (λ b.
                  promoted (b || v.reports) after
                    (if b then set_runtime_reporting host_reporting v.delivery else v.delivery))
                now
              ∙ sym (d v.delivery)),
    )

module _ {D : Type 0} (api : EspNowDriver D) (c5 has_ax : Bool) (config : EspNowConfig)
    (take_from_bytes : List ℕ → Option (ControlPacket × List ℕ)) where
  -- A responder that is locked onto an initiator and has heard no silent packet, whatever frames
  -- then arrive from anyone: it reports afterwards exactly if it did before or three packets in a
  -- row among the initiator's readable ones announce that it does not report; its reporting
  -- policy is set to the host then, and is untouched otherwise; and it stays locked.
  pub ingest_all-promoted :
      (tx_enabled : Bool) (m : Mac) (fs : List PoolFrame) (r : Responder D)
      → IsLocked m r
      → r.shared.last_initiator_silent ≡ false
      → let three : Bool =
          three_silent (silences (packets_from api c5 has_ax config take_from_bytes m fs)) in
        let r' : Responder D = ingest_all api c5 has_ax config take_from_bytes tx_enabled fs r in
        ((r'.shared.reports ≡ (r.shared.reports || three))
          × (r'.delivery ≡ promoted r.shared.reports three r.delivery))
        × IsLocked m r'
  ingest_all-promoted tx_enabled m fs r h fresh =
      let ps : List ControlPacket = packets_from api c5 has_ax config take_from_bytes m fs in
      let (sees, locked) =
        ingest_all-view api c5 has_ax config take_from_bytes tx_enabled m fs r h in
      let (reports, delivery) = view_all-promoted ps Phase.talking (view r) fresh in
      ((ap (λ v. v.reports) sees ∙ reports, ap (λ v. v.delivery) sees ∙ delivery), locked)
