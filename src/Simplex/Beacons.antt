-- ===== src/Simplex/Beacons.antt =====
-- How often the simplex peer transmits.
use esp_csi_rs.Base.{
  ℕ, ◌+◌, ◌*◌, ◌≤◌, ◌≡◌, refl, ◌∙◌, ◌⊎◌, inl, inr, Bool-cases, Option-cases, Bool, true, not, ◌&&◌,
  Option, List, [], ◌∷◌, ◌++◌, leb, is_some, length, length-append, arith,
}
use esp_csi_rs.EspNow.{EspNowConfig}
use esp_csi_rs.Protocol.{ControlPacket, initiator_magic_number}
use esp_csi_rs.Pool.{Pool}
use esp_csi_rs.Stats.{Stats}
use esp_csi_rs.Responder.Loop.{rx_burst_max_rx_only}
use esp_csi_rs.Simplex.{
  Peer, PeerPhase, PeerRound, Sent, Wake, beacon_period_us, flood_buf_len, framed, start_peer,
  beacon_step, beacon_wake, peer_round, peer_all, drain_pool,
}

-- Clock readings that do not go back, from `t` on.
abbrev pub IsClock : ℕ → List PeerRound → Type 0
IsClock t [] = Unit {0}
IsClock t (r ∷ rs) = ((t ≤ r.now_us) × (r.now_us ≤ r.sent_us)) × IsClock r.sent_us rs

abbrev pub last_us : ℕ → List PeerRound → ℕ
last_us t [] = t
last_us t (r ∷ rs) = last_us r.sent_us rs

last_us-ge : (t : ℕ) (rs : List PeerRound) → IsClock t rs → t ≤ last_us t rs
last_us-ge t [] h = omega arith
last_us-ge t (r ∷ rs) h = omega (arith, h.0.0, h.0.1, last_us-ge r.sent_us rs h.1)

-- Some beacons by `last`, the deadline having been `at`: none, or as many as the period allows.
abbrev Spaced : ℕ → ℕ → ℕ → Type 0
Spaced count at' last = (count ≡ 0) ⊎ (count * beacon_period_us + at' ≤ last + beacon_period_us)

is_due : (b : Bool) (at' now : ℕ) → (b && leb at' now) ≡ true → at' ≤ now
is_due b at' now e = ground arith

-- The arithmetic of a round: `c` beacons in it and `c'` behind it.
spaced :
    (c c' n at' at'' now sent last : ℕ)
    → now ≤ sent
    → sent ≤ last
    → ((c ≡ 0) × (at' ≤ at'')) ⊎ ((c ≡ 1) × ((at' ≤ now) × (at'' ≡ sent + beacon_period_us)))
    → Spaced c' at'' last
    → n ≡ c + c'
    → Spaced n at' last
spaced c c' n at' at'' now sent last clock later (inl (none_sent, k)) (inl e) sum =
    inl (omega arith)
spaced c c' n at' at'' now sent last clock later (inl (none_sent, k)) (inr f) sum =
    inr (omega arith)
spaced c c' n at' at'' now sent last clock later (inr (one, (due, moved))) (inl e) sum =
    inr (omega arith)
spaced c c' n at' at'' now sent last clock later (inr (one, (due, moved))) (inr f) sum =
    inr (omega arith)

module _ (config : EspNowConfig) (tx_enabled : Bool)
    (take_beacon : List ℕ → Option (Unit {0} × List ℕ))
    (control_to_slice : ControlPacket → ℕ → Option (List ℕ)) where
  -- A round sends no beacon, or one at the deadline or behind it, which moves the deadline.
  abbrev Steps : PeerRound → Peer → Peer × List Sent → Type 0
  Steps r p out =
      ((length out.1 ≡ 0) × (p.beacon_at_us ≤ out.0.beacon_at_us))
      ⊎ ((length out.1 ≡ 1)
          × ((p.beacon_at_us ≤ r.now_us) × (out.0.beacon_at_us ≡ r.sent_us + beacon_period_us)))

  beacon_step-Steps :
      (r : PeerRound) (p : Peer)
      → r.now_us ≤ r.sent_us
      → Steps r p (beacon_step config tx_enabled take_beacon control_to_slice r p)
  unfolding beacon_step
  beacon_step-Steps r p clock =
      let packet : ControlPacket = record {
        initiator_reports = true;
        sequence_number = p.beacon_seq;
      } in
      let message : Option (List ℕ) =
        framed control_to_slice packet initiator_magic_number (not (is_some config.peer_mac))
          flood_buf_len in
      elim (Bool-cases (tx_enabled && leb p.beacon_at_us r.now_us)) [
        | inr e ↦ rw (beacon_step, e) (inl (refl, omega arith))
        | inl e ↦
            (let due : p.beacon_at_us ≤ r.now_us = is_due tx_enabled p.beacon_at_us r.now_us e in
              elim (Option-cases message) [
                | inl o ↦ rw (beacon_step, e, o) (inl (refl, omega (arith, due)))
                | inr o ↦ rw (beacon_step, e, o.1) (inr (refl, (due, refl)))
              ])
      ]

  wake-same :
      (w : Wake) (p : Peer)
      → (beacon_wake config tx_enabled take_beacon control_to_slice w p).beacon_at_us
        ≡ p.beacon_at_us
  unfolding beacon_wake
  wake-same Wake.stop p = refl
  wake-same Wake.deadline p = refl
  wake-same (Wake.frame f) p = refl

  peer_round-Steps :
      (phase : PeerPhase) (r : PeerRound) (p : Peer)
      → r.now_us ≤ r.sent_us
      → Steps r p (peer_round config tx_enabled take_beacon control_to_slice phase r p)
  unfolding peer_round
  peer_round-Steps PeerPhase.stopped r p clock = inl (refl, omega arith)
  peer_round-Steps PeerPhase.beaconing r p clock =
      let same =
        wake-same r.wake (beacon_step config tx_enabled take_beacon control_to_slice r p).0 in
      elim (beacon_step-Steps r p clock) [
        | inl (none_sent, later) ↦ inl (none_sent, omega (arith, same, later))
        | inr (one, (due, moved)) ↦ inr (one, (due, same ∙ moved))
      ]
  peer_round-Steps (PeerPhase.receiving m) r p clock = receives r.wake
    where
      receives :
          (w : Wake)
          → Steps r p (elim w [
            | Wake.stop ↦ (record p { phase = PeerPhase.stopped }, [])
            | Wake.deadline ↦ (p, [])
            | Wake.frame f ↦ (record p { pool = drain_pool rx_burst_max_rx_only p.pool }, [])
          ])
      receives Wake.stop = inl (refl, omega arith)
      receives Wake.deadline = inl (refl, omega arith)
      receives (Wake.frame f) = inl (refl, omega arith)

  peer_all-Spaced :
      (t : ℕ) (rs : List PeerRound) (p : Peer)
      → IsClock t rs
      → Spaced
          (length (peer_all config tx_enabled take_beacon control_to_slice rs p).1)
          p.beacon_at_us
          (last_us t rs)
  unfolding peer_all
  peer_all-Spaced t [] p h = inl refl
  peer_all-Spaced t (r ∷ rs) p h =
      let out : Peer × List Sent =
        peer_round config tx_enabled take_beacon control_to_slice p.phase r p in
      let out' : Peer × List Sent =
        peer_all config tx_enabled take_beacon control_to_slice rs out.0 in
      spaced (length out.1) (length out'.1) (length (out.1 ++ out'.1)) p.beacon_at_us
        out.0.beacon_at_us r.now_us r.sent_us (last_us r.sent_us rs) h.0.1
        (last_us-ge r.sent_us rs h.1) (peer_round-Steps p.phase r p h.0.1)
        (peer_all-Spaced r.sent_us rs out.0 h.1) (length-append out.1 out'.1)

  -- A peer that starts to discover, over any rounds on a clock that does not go back, whatever
  -- frames arrive: the beacons it sends, a second each, fit between its start and one second
  -- after the last clock.
  pub peer_all-spaced :
      (now_us : ℕ) (rs : List PeerRound) (pool : Pool) (stats : Stats)
      → IsClock now_us rs
      → let out =
          peer_all config tx_enabled take_beacon control_to_slice rs
            (start_peer config now_us pool stats) in
        length out.1 * beacon_period_us + now_us ≤ last_us now_us rs + beacon_period_us
  peer_all-spaced now_us rs pool stats h =
      elim (peer_all-Spaced now_us rs (start_peer config now_us pool stats) h) [
        | inl e ↦ omega (arith, e, last_us-ge now_us rs h)
        | inr e ↦ e
      ]
