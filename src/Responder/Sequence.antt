-- ===== src/Responder/Sequence.antt =====
-- The responder's two counters of control packets: heard, and missed by their sequence numbers.
use esp_csi_rs.Base.{
  ℕ, suc, ◌+◌, ◌-◌, ◌^◌, ◌≤◌, ◌<◌, ◌≡◌, refl, ap, ◌∙◌, Bool, true, false, Option, List, [], ◌∷◌,
  length, arith,
}
use esp_csi_rs.Mac.{Mac}
use esp_csi_rs.EspNow.{EspNowConfig, EspNowDriver}
use esp_csi_rs.Protocol.{ControlPacket}
use esp_csi_rs.Pool.{PoolFrame}
use esp_csi_rs.Responder.{Responder, add_some}
use esp_csi_rs.Responder.Run.{
  View, view, view_step, view_all, IsLocked, packets_from, ingest_all, ingest_all-view,
}

-- Sequence numbers that rise from `last` and are `u32`s.
abbrev pub IsRising : ℕ → List ControlPacket → Type 0
IsRising last [] = Unit {0}
IsRising last (p ∷ ps) =
    (last < p.sequence_number) × ((p.sequence_number < 2 ^ 32) × IsRising p.sequence_number ps)

abbrev pub last_of : ℕ → List ControlPacket → ℕ
last_of last [] = last
last_of last (p ∷ ps) = last_of p.sequence_number ps

last_of-ge : (last : ℕ) (ps : List ControlPacket) → IsRising last ps → last ≤ last_of last ps
last_of-ge last [] h = omega arith
last_of-ge last (p ∷ ps) h = omega (arith, h.0, last_of-ge p.sequence_number ps h.1.1)

-- The counters from a first packet on, with `k` packets heard and the number `n` the last one.
abbrev Counted : ℕ → ℕ → ℕ → View → Type 0
Counted start k n v =
    ((v.initialized ≡ true) × (v.last ≡ n))
    × ((v.heard_count ≡ k) × (k + v.missed_count + start ≡ n + 1))

add_some_small : (n k : ℕ) → n + k < 2 ^ 64 → add_some n k ≡ n + k
add_some_small n k h = ground arith

step-Counted :
    (start k n : ℕ) (p : ControlPacket) (v : View)
    → Counted start k n v
    → n < p.sequence_number
    → p.sequence_number < 2 ^ 32
    → Counted start (k + 1) p.sequence_number (view_step p v)
step-Counted start k n p v ((ready, at'), (heard, sum)) up small =
    let missed : add_some v.missed_count (p.sequence_number - v.last - 1)
        ≡ v.missed_count + (p.sequence_number - v.last - 1) =
      add_some_small v.missed_count (p.sequence_number - v.last - 1) (omega arith) in
    ((refl, refl), (omega arith, rw (ready, missed) (omega arith)))

view_all-Counted :
    (start k n : ℕ) (ps : List ControlPacket) (v : View)
    → Counted start k n v
    → IsRising n ps
    → Counted start (k + length ps) (last_of n ps) (view_all ps v)
view_all-Counted start k n [] v h up = let e : k + 0 ≡ k = omega arith in rw e h
view_all-Counted start k n (p ∷ ps) v h up =
    let e : k + suc (length ps) ≡ k + 1 + length ps = omega arith in
    rw e (
      view_all-Counted start (k + 1) p.sequence_number ps (view_step p v)
        (step-Counted start k n p v h up.0 up.1.0) up.1.1)

module _ {D : Type 0} (api : EspNowDriver D) (c5 has_ax : Bool) (config : EspNowConfig)
    (take_from_bytes : List ℕ → Option (ControlPacket × List ℕ)) where
  -- A locked responder with fresh counters, if the numbers of the initiator's readable packets
  -- rise and are `u32`s, whatever other frames arrive: the heard count is the number of those
  -- packets, and the heard and the missed packets together are all numbers from the first one to
  -- the last.
  pub ingest_all-counted :
      (tx_enabled : Bool) (m : Mac) (p : ControlPacket) (ps : List ControlPacket)
      (fs : List PoolFrame) (r : Responder D)
      → IsLocked m r
      → r.shared.sequence_initialized ≡ false
      → r.diagnostics.rx_control_packet_count ≡ 0
      → r.diagnostics.rx_sequence_miss_count ≡ 0
      → packets_from api c5 has_ax config take_from_bytes m fs ≡ p ∷ ps
      → IsRising p.sequence_number ps
      → let d = (ingest_all api c5 has_ax config take_from_bytes tx_enabled fs r).diagnostics in
        (d.rx_control_packet_count ≡ length (p ∷ ps))
        × (d.rx_control_packet_count + d.rx_sequence_miss_count + p.sequence_number
            ≡ last_of p.sequence_number ps + 1)
  ingest_all-counted tx_enabled m p ps fs r h fresh none_heard none_missed e up =
      let sees : view (ingest_all api c5 has_ax config take_from_bytes tx_enabled fs r)
          ≡ view_all (p ∷ ps) (view r) =
        (ingest_all-view api c5 has_ax config take_from_bytes tx_enabled m fs r h).0
        ∙ ap (λ l. view_all l (view r)) e in
      let first : Counted p.sequence_number 1 p.sequence_number (view_step p (view r)) =
        ((refl, refl), (rw none_heard refl, rw (fresh, none_missed) (omega arith))) in
      let v : View = view_all (p ∷ ps) (view r) in
      let (_, (heard, sum)) =
        view_all-Counted p.sequence_number 1 p.sequence_number ps _ first up in
      let total : v.heard_count + v.missed_count + p.sequence_number
          ≡ last_of p.sequence_number ps + 1 =
        ap (λ k. k + v.missed_count + p.sequence_number) heard ∙ sum in
      (
        ap (λ t. t.heard_count) sees ∙ (heard ∙ omega arith),
        ap (λ t. t.heard_count + t.missed_count + p.sequence_number) sees ∙ total,
      )
