-- ===== src/Simplex.antt =====
-- src/lib/initiator/esp_now_simplex.rs and src/lib/responder/esp_now_simplex.rs: the source, which
-- finds the peer and floods it, and the peer, which beacons until it hears the source.
-- The driver's calls are the fields of an `EspNowDriver`; postcard's readers and writers, the clock
-- and the results of the sends are arguments. Each step runs from one wait to the next.
pub mod Beacons
pub mod Flood
mod Tests
use esp_csi_rs.Base.{
  ℕ, zero, suc, ◌+◌, ◌-◌, ◌*◌, ◌/◌, ◌%◌, ◌^◌, max, bit_and, Bool, true, false, not, ◌&&◌, ◌||◌,
  Option, none, some, List, [], ◌∷◌, ◌++◌, if◌then◌else◌, ◌==◌, ltb, leb, is_some,
}
use esp_csi_rs.Mac.{Mac, mac_eq}
use esp_csi_rs.EspNow.{
  EspNowConfig, EspNowDriver, PeerInfo, PeerPhy, SendResult, mcs7_lgi, peer_phy, phy_mode,
}
use esp_csi_rs.Protocol.{
  ControlPacket, Serialized, initiator_magic_number, responder_magic_number, serialize_with_magic,
  parse_with_magic,
}
use esp_csi_rs.Stats.{Stats, record_tx}
use esp_csi_rs.Pool.{Pool, PoolFrame, data_of, receive}
use esp_csi_rs.Pacing.{is_sent, saturating_add}
use esp_csi_rs.Responder.{broadcast_address, peer_healthcheck_period}
use esp_csi_rs.Responder.Loop.{rx_burst_max_rx_only}
use esp_csi_rs.Initiator.{Sending}

-- `FLOOD_BUF_LEN` and `BEACON_BUF_LEN`.
abbrev pub flood_buf_len : ℕ
flood_buf_len = 16

-- `BEACON_PERIOD`, in microseconds.
abbrev pub beacon_period_us : ℕ
beacon_period_us = 1_000_000

-- A frame handed to the driver.
pub record Sent : Type 0 where
  pub dest : Mac
  pub message : List ℕ

-- A frame under the initiator's or the responder's magic number, where it is sent.
unfoldable pub framed :
    {A : Type 0} → (A → ℕ → Option (List ℕ)) → A → ℕ → Bool → ℕ → Option (List ℕ)
unfolding serialize_with_magic
framed to_slice packet magic send_magic room =
    elim (serialize_with_magic to_slice packet magic send_magic room) [
      | Serialized.written message ↦ some message
      | _ ↦ none
    ]

-- What the source waits for: the peer's beacon, or the next send to the peer it has locked.
pub data SourcePhase : Type 0 where
  discovering stopped : SourcePhase
  flooding : Mac → SourcePhase

pub record Source (D : Type 0) : Type 0 where
  pub phase : SourcePhase
  pub seq : ℕ
  pub healthcheck : ℕ
  pub next_tx_us : ℕ
  pub driver : D
  pub stats : Stats

-- What one round of the flood meets: the STOP signal at its start, in the back-off and in the rate
-- cap's wait, the result of the send and the clock behind it.
pub record Round : Type 0 where
  pub stop : Bool
  pub stop_backoff : Bool
  pub stop_cap : Bool
  pub result : SendResult
  pub now_us : ℕ

abbrev is_busy : SendResult → Bool
is_busy SendResult.busy = true
is_busy _ = false

-- `cap_interval_us`.
abbrev pub cap_interval_us : Option ℕ → Option ℕ
cap_interval_us none = none
cap_interval_us (some freq) = some (1_000_000 / max freq 1)

-- The next deadline, and whether the loop waits for it.
abbrev pub capped : Option ℕ → ℕ → ℕ → ℕ × Bool
capped none next_tx_us now_us = (next_tx_us, false)
capped (some interval) next_tx_us now_us =
    (saturating_add next_tx_us interval, ltb now_us (saturating_add next_tx_us interval))

module _ {D : Type 0} (api : EspNowDriver D) (has_ax : Bool) (config : EspNowConfig)
    (take_control : List ℕ → Option (ControlPacket × List ℕ))
    (control_to_slice : ControlPacket → ℕ → Option (List ℕ))
    (beacon_to_slice : Unit {0} → ℕ → Option (List ℕ)) where
  -- `add_simplex_peer`.
  unfoldable pub add_simplex_peer : Mac → D → D × Bool
  add_simplex_peer m d =
      if api.peer_exists m d
      then (d, true)
      else api.add_peer (record { peer_address = m; channel = config.channel }) d

  -- `rate`, and `PeerPhy { rate, ..config.peer_phy() }`.
  abbrev pub flood_phy : PeerPhy
  flood_phy = record (peer_phy config) {
    rate = if config.force_phy then config.phy_rate else mcs7_lgi;
  }

  -- The peer registered and its PHY forced.
  abbrev pub register_peer : Mac → D → D
  register_peer m d =
      api.set_peer_rate m (phy_mode has_ax flood_phy) flood_phy.rate (add_simplex_peer m d).0

  -- The hello, in auto pairing alone.
  unfoldable pub hello : Mac → List Sent
  unfolding framed
  hello m =
      if is_some config.peer_mac
      then []
      else (elim (framed beacon_to_slice tt responder_magic_number true 8) [
        | none ↦ []
        | some message ↦ record { dest = m; message = message } ∷ []
      ])

  -- From the discovery to the flood, at `now_us`.
  unfoldable pub lock_peer : Mac → ℕ → Source D → Source D × List Sent
  unfolding add_simplex_peer hello
  lock_peer m now_us s = (
    record s {
      phase = SourcePhase.flooding m;
      driver = register_peer m s.driver;
      next_tx_us = now_us;
    },
    hello m,
  )

  -- A frame while the source discovers.
  unfoldable pub discover : PoolFrame → ℕ → Source D → Source D × List Sent
  unfolding lock_peer parse_with_magic
  discover f now_us s =
      if is_some (parse_with_magic take_control (data_of f) initiator_magic_number true)
      then lock_peer f.info.src_address now_us s
      else (s, [])

  -- The start of `run_esp_now_simplex_source`.
  unfoldable pub start_source : ℕ → D → Stats → Source D × List Sent
  unfolding lock_peer
  start_source now_us d stats =
      let d' : D =
        if is_some config.secondary_channel then d else api.set_channel config.channel d in
      let s : Source D = record {
        phase = SourcePhase.discovering;
        seq = 0;
        healthcheck = 0;
        next_tx_us = 0;
        driver = d';
        stats = stats;
      } in
      elim config.peer_mac [ none ↦ (s, []) | some m ↦ lock_peer m now_us s ]

  -- The healthcheck of a round: every 256th re-registers a peer that the driver has lost.
  unfoldable pub check_peer : Mac → Source D → Source D
  unfolding add_simplex_peer
  check_peer m s =
      let count : ℕ = (s.healthcheck + 1) % 2 ^ 16 in
      let lost : Bool =
        bit_and count (peer_healthcheck_period - 1) == 0 && not (api.peer_exists m s.driver) in
      record s { healthcheck = count; driver = if lost then register_peer m s.driver else s.driver }

  -- Behind a send: the number and the count of a success, the deadline, and where STOP ends it.
  unfoldable pub after_flood : Option ℕ → Mac → Round → Source D → Source D
  after_flood freq_hz m round s =
      let next : ℕ × Bool = capped (cap_interval_us freq_hz) s.next_tx_us round.now_us in
      let backoff_stop : Bool = is_busy round.result && round.stop_backoff in
      record s {
        seq = if is_sent round.result then (s.seq + 1) % 2 ^ 32 else s.seq;
        stats = if is_sent round.result then record_tx s.stats else s.stats;
        next_tx_us = if backoff_stop then s.next_tx_us else next.0;
        phase =
            if backoff_stop || (next.1 && round.stop_cap)
            then SourcePhase.stopped
            else SourcePhase.flooding m;
      }

  -- One round of the flood to the locked peer.
  unfoldable pub flood : Option ℕ → Mac → Round → Source D → Source D × List Sending
  unfolding check_peer after_flood framed
  flood freq_hz m round s =
      let s' : Source D = check_peer m s in
      let packet : ControlPacket = record { initiator_reports = false; sequence_number = s.seq } in
      if round.stop
      then (record s { phase = SourcePhase.stopped }, [])
      else (elim (framed control_to_slice packet initiator_magic_number
          (not (is_some config.peer_mac)) flood_buf_len) [
            | none ↦ (record s' { phase = SourcePhase.stopped }, [])
            | some message ↦ (
              after_flood freq_hz m round s',
              record { dest = m; packet = packet; message = message; result = round.result } ∷ [],
            )
          ])

  -- A round, by the phase: only a source that floods sends.
  unfoldable pub flood_round : SourcePhase → Option ℕ → Round → Source D → Source D × List Sending
  unfolding flood
  flood_round SourcePhase.discovering freq_hz round s = (s, [])
  flood_round SourcePhase.stopped freq_hz round s = (s, [])
  flood_round (SourcePhase.flooding m) freq_hz round s = flood freq_hz m round s

  unfoldable pub flood_all : Option ℕ → List Round → Source D → Source D × List Sending
  unfolding flood_round
  flood_all freq_hz [] s = (s, [])
  flood_all freq_hz (round ∷ rounds) s =
      let out = flood_round s.phase freq_hz round s in
      let rest = flood_all freq_hz rounds out.0 in (rest.0, out.1 ++ rest.1)

-- `run_esp_now_simplex_peer`: the peer beacons, has heard the source, or has stopped.
pub data PeerPhase : Type 0 where
  beaconing stopped : PeerPhase
  receiving : Mac → PeerPhase

pub record Peer : Type 0 where
  pub phase : PeerPhase
  pub beacon_seq : ℕ
  pub beacon_at_us : ℕ
  pub pool : Pool
  pub stats : Stats

-- What ends a wait: the STOP signal, a frame, or the deadline of the next beacon.
pub data Wake : Type 0 where
  stop deadline : Wake
  frame : PoolFrame → Wake

-- One round: the clock before the beacon, behind it, and what ends the wait.
pub record PeerRound : Type 0 where
  pub now_us : ℕ
  pub sent_us : ℕ
  pub wake : Wake

abbrev pub start_peer : EspNowConfig → ℕ → Pool → Stats → Peer
start_peer config now_us pool stats = record {
  phase = elim config.peer_mac [ none ↦ PeerPhase.beaconing | some m ↦ PeerPhase.receiving m ];
  beacon_seq = 0;
  beacon_at_us = now_us;
  pool = pool;
  stats = stats;
}

-- The drain behind a frame: up to `n` frames are taken out of the pool.
unfoldable pub drain_pool : ℕ → Pool → Pool
unfolding receive
drain_pool zero p = p
drain_pool (suc n) p = elim (receive p).1 [ none ↦ p | some f ↦ drain_pool n (receive p).0 ]

module _ (config : EspNowConfig) (tx_enabled : Bool)
    (take_beacon : List ℕ → Option (Unit {0} × List ℕ))
    (control_to_slice : ControlPacket → ℕ → Option (List ℕ)) where
  -- The beacon that is due.
  unfoldable pub beacon_step : PeerRound → Peer → Peer × List Sent
  unfolding framed
  beacon_step round p =
      let packet : ControlPacket = record {
        initiator_reports = true;
        sequence_number = p.beacon_seq;
      } in
      if tx_enabled && leb p.beacon_at_us round.now_us
      then (elim (framed control_to_slice packet initiator_magic_number
          (not (is_some config.peer_mac)) flood_buf_len) [
            | none ↦ (record p { beacon_at_us = round.sent_us + beacon_period_us }, [])
            | some message ↦ (
              record p {
                beacon_seq = (p.beacon_seq + 1) % 2 ^ 32;
                beacon_at_us = round.sent_us + beacon_period_us;
                stats = record_tx p.stats;
              },
              record { dest = broadcast_address; message = message } ∷ [],
            )
          ])
      else (p, [])

  -- `is_source`.
  unfoldable pub is_source : PoolFrame → Bool
  unfolding parse_with_magic
  is_source f = elim config.peer_mac [
    | some expected ↦ mac_eq f.info.src_address expected
    | none ↦ is_some (parse_with_magic take_beacon (data_of f) responder_magic_number true)
  ]

  unfoldable pub beacon_wake : Wake → Peer → Peer
  unfolding is_source
  beacon_wake Wake.stop p = record p { phase = PeerPhase.stopped }
  beacon_wake Wake.deadline p = p
  beacon_wake (Wake.frame f) p = record p {
    phase = if is_source f then PeerPhase.receiving f.info.src_address else p.phase;
  }

  -- A round, by the phase.
  unfoldable pub peer_round : PeerPhase → PeerRound → Peer → Peer × List Sent
  unfolding beacon_step beacon_wake drain_pool
  peer_round PeerPhase.stopped round p = (p, [])
  peer_round PeerPhase.beaconing round p =
      (beacon_wake round.wake (beacon_step round p).0, (beacon_step round p).1)
  peer_round (PeerPhase.receiving m) round p = elim round.wake [
    | Wake.stop ↦ (record p { phase = PeerPhase.stopped }, [])
    | Wake.deadline ↦ (p, [])
    | Wake.frame f ↦ (record p { pool = drain_pool rx_burst_max_rx_only p.pool }, [])
  ]

  unfoldable pub peer_all : List PeerRound → Peer → Peer × List Sent
  unfolding peer_round
  peer_all [] p = (p, [])
  peer_all (round ∷ rounds) p =
      let out = peer_round p.phase round p in
      let rest = peer_all rounds out.0 in (rest.0, out.1 ++ rest.1)
