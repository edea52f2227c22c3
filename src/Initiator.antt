-- ===== src/Initiator.antt =====
-- src/lib/initiator/esp_now.rs, without the `cpu-test-tx` feature: the peers that the initiator
-- knows, where its control packets go, and one pass of its loop.
-- The driver's calls are the fields of an `EspNowDriver`; postcard's reader of a `ResponderPacket`
-- is `take_from_bytes`, its writer of a `ControlPacket` `to_slice`. `statistics` is enabled.
pub mod Peers
pub mod Numbers
mod Tests
use esp_csi_rs.Base.{
  ℕ, zero, suc, ◌+◌, ◌-◌, ◌%◌, ◌^◌, max, Bool, true, false, not, ◌&&◌, ◌||◌, Option, none, some,
  List, [], ◌∷◌, ◌++◌, if◌then◌else◌, ltb, leb, is_some, length, unwrap_or,
}
use esp_csi_rs.Mac.{Mac, mac_eq}
use esp_csi_rs.EspNow.{
  EspNowConfig, EspNowDriver, IoTaskConfig, PeerInfo, SendResult, peer_phy, phy_mode,
}
use esp_csi_rs.Protocol.{
  ControlPacket, Serialized, initiator_magic_number, responder_magic_number, serialize_with_magic,
  parse_with_magic,
}
use esp_csi_rs.Session.{Session, set_sounding_instance}
use esp_csi_rs.Stats.{Stats, record_tx}
use esp_csi_rs.Pool.{Pool, arrive, PoolFrame, data_of, receive}
use esp_csi_rs.Pacing.{
  Pacing, Turn, is_sent, tx_catch_up_burst, rx_burst_max_with_tx, rx_reserved_tx_guard_us,
  new_pacing, pace, schedule_next, wait_slice_us,
}
use esp_csi_rs.Responder.{fetch_add, broadcast_address}

abbrev pub control_packet_buf_len : ℕ
control_packet_buf_len = 16

abbrev pub rx_tracked_peers_capacity : ℕ
rx_tracked_peers_capacity = 16

-- `known_peers.get(..).is_some()`.
unfoldable pub knows : Mac → List Mac → Bool
knows m [] = false
knows m (k ∷ ks) = mac_eq k m || knows m ks

-- `known_peers.insert` of an address that is not there, with the table cleared where it is full.
unfoldable pub insert_peer : Mac → List Mac → List Mac
insert_peer m ks = if ltb (length ks) rx_tracked_peers_capacity then ks ++ (m ∷ []) else m ∷ []

unfoldable pub downlink_target : Option Mac → List Mac → Mac
downlink_target (some m) ks = m
downlink_target none [] = broadcast_address
downlink_target none (only ∷ []) = only
downlink_target none (k ∷ k' ∷ ks) = broadcast_address

-- `reset_tx_diagnostics`, and the variables of `run_esp_now_initiator`, with the pool it reads, the
-- session, the statistics and the driver.
pub record Initiator (D : Type 0) : Type 0 where
  pub tx_queued_count : ℕ
  pub tx_confirmed_count : ℕ
  pub tx_failed_count : ℕ
  pub control_sequence : ℕ
  pub tx_target : Mac
  pub known_peers : List Mac
  pub pacing : Pacing
  pub pool : Pool
  pub session : Session
  pub stats : Stats
  pub driver : D

-- A control packet handed to the driver, and what became of it.
pub record Sending : Type 0 where
  pub dest : Mac
  pub packet : ControlPacket
  pub message : List ℕ
  pub result : SendResult

-- `freq`.
abbrev pub tx_frequency : Option ℕ → ℕ
tx_frequency none = 2 ^ 16 - 1
tx_frequency (some freq) = max freq 1

-- The control packet for the next send, in its frame.
unfoldable pub control_frame :
    (ControlPacket → ℕ → Option (List ℕ)) → EspNowConfig → ControlPacket → Option (List ℕ)
unfolding serialize_with_magic
control_frame to_slice config packet =
    elim (serialize_with_magic to_slice packet initiator_magic_number
      (not (is_some config.peer_mac)) control_packet_buf_len) [
        | Serialized.written message ↦ some message
        | _ ↦ none
      ]

module _ {D : Type 0} where
  -- The arms of the `match` on the result of `send_async`, and the rescheduling behind it.
  unfoldable pub after_send : Bool → SendResult → Initiator D → Initiator D
  unfolding pace
  after_send adaptive result s = record s {
    tx_queued_count = if is_sent result then fetch_add s.tx_queued_count 1 else s.tx_queued_count;
    tx_confirmed_count =
        if is_sent result then fetch_add s.tx_confirmed_count 1 else s.tx_confirmed_count;
    tx_failed_count = if is_sent result then s.tx_failed_count else fetch_add s.tx_failed_count 1;
    control_sequence =
        if is_sent result then (s.control_sequence + 1) % 2 ^ 32 else s.control_sequence;
    pacing = schedule_next (pace adaptive result s.pacing);
    stats = if is_sent result then record_tx s.stats else s.stats;
  }

  abbrev pub sounding : Initiator D → Initiator D
  sounding s = record s { session = set_sounding_instance s.control_sequence s.session }

  abbrev pub arrived : Turn → Initiator D → Initiator D
  arrived turn s = record s { pool = arrive turn.arrivals s.pool }

module _ {D : Type 0} (api : EspNowDriver D) (c5 has_ax : Bool) (config : EspNowConfig)
    (take_from_bytes : List ℕ → Option (Unit {0} × List ℕ))
    (to_slice : ControlPacket → ℕ → Option (List ℕ)) (reports : Bool) where
  -- A peer that is not registered is added; a forced PHY is applied to it.
  abbrev pub register_responder : Mac → D → D
  register_responder m d =
      let d' : D =
        if api.peer_exists m d
        then d
        else (api.add_peer (record { peer_address = m; channel = config.channel }) d).0 in
      if config.force_phy
      then api.set_peer_rate m (phy_mode has_ax (peer_phy config)) config.phy_rate d'
      else d'

  -- Whether a frame is a reply: from the configured peer, or with the responder's magic number.
  unfoldable pub is_reply : PoolFrame → Bool
  unfolding parse_with_magic
  is_reply f = elim config.peer_mac [
    | some expected ↦ mac_eq f.info.src_address expected
    | none ↦ is_some (parse_with_magic take_from_bytes (data_of f) responder_magic_number true)
  ]

  unfoldable pub handle_responder_packet : PoolFrame → Initiator D → Initiator D
  unfolding is_reply knows insert_peer
  handle_responder_packet f s =
      let src : Mac = f.info.src_address in
      let new : Bool = is_reply f && not (knows src s.known_peers) in
      record s {
        driver = if new then register_responder src s.driver else s.driver;
        known_peers = if new then insert_peer src s.known_peers else s.known_peers;
      }

  abbrev pub handle_from : Pool → PoolFrame → Initiator D → Initiator D
  handle_from pool f s = handle_responder_packet f (record s { pool = pool })

  -- The RX burst with `budget` rounds left and `rx_packets` done.
  unfoldable pub rx_burst : Bool → ℕ → ℕ → Turn → Initiator D → Initiator D
  unfolding handle_responder_packet receive
  rx_burst tx_active zero rx_packets turn s = s
  rx_burst tx_active (suc budget) rx_packets turn s =
      let deadline : ℕ =
        if tx_active then s.pacing.next_tx_us - rx_reserved_tx_guard_us else 2 ^ 64 - 1 in
      elim ((tx_active && ltb 0 rx_packets) && leb deadline (turn.guard_us rx_packets)) [
        | true ↦ s
        | false ↦ (elim (receive s.pool).1 [
          | none ↦ s
          | some f ↦
              rx_burst tx_active budget (rx_packets + 1) turn (handle_from (receive s.pool).0 f s)
        ])
      ]

  -- The control packets that are due, with `budget` rounds left and `k` sends done.
  unfoldable pub tx_burst : ℕ → ℕ → Bool → Turn → Initiator D → Initiator D × List Sending
  unfolding control_frame after_send
  tx_burst zero k adaptive turn s = (s, [])
  tx_burst (suc budget) k adaptive turn s =
      let packet : ControlPacket = record {
        initiator_reports = reports;
        sequence_number = s.control_sequence;
      } in
      elim (leb s.pacing.next_tx_us (turn.now_us k)) [
        | false ↦ (s, [])
        | true ↦ (elim (control_frame to_slice config packet) [
          | none ↦ (s, [])
          | some message ↦
              (let s' : Initiator D = after_send adaptive (turn.result k) (sounding s) in
                let sending : Sending = record {
                  dest = s.tx_target;
                  packet = packet;
                  message = message;
                  result = turn.result k;
                } in
                elim (is_sent (turn.result k)) [
                  | false ↦ (s', sending ∷ [])
                  | true ↦
                      (let rest = tx_burst budget (suc k) adaptive turn s' in
                        (rest.0, sending ∷ rest.1))
                ])
        ])
      ]

  -- The RX half of a pass, which re-reads the target.
  unfoldable pub rx_step : IoTaskConfig → Turn → Initiator D → Initiator D
  unfolding rx_burst downlink_target
  rx_step io_tasks turn s =
      let budget : ℕ = if io_tasks.tx_enabled then rx_burst_max_with_tx else 2 ^ 16 - 1 in
      let s' : Initiator D = rx_burst io_tasks.tx_enabled budget 0 turn s in
      record s' { tx_target = downlink_target config.peer_mac s'.known_peers }

  -- One pass, and whether the loop ends.
  unfoldable pub pass : IoTaskConfig → Turn → Initiator D → Initiator D × List Sending × Bool
  unfolding rx_step tx_burst
  pass io_tasks turn s =
      let s1 : Initiator D = arrived turn s in
      let s2 : Initiator D = if io_tasks.rx_enabled then rx_step io_tasks turn s1 else s1 in
      let adaptive : Bool = io_tasks.rx_enabled && io_tasks.tx_enabled in
      let out : Initiator D × List Sending =
        if io_tasks.tx_enabled then tx_burst tx_catch_up_burst 0 adaptive turn s2 else (s2, []) in
      (out.0, out.1, turn.stop)

  -- The loop over the passes, until STOP.
  unfoldable pub run : IoTaskConfig → List Turn → Initiator D → Initiator D × List Sending
  unfolding pass
  run io_tasks [] s = (s, [])
  run io_tasks (turn ∷ turns) s =
      let (s', sendings, stop) = pass io_tasks turn s in
      let rest = run io_tasks turns s' in
      (if stop then s' else rest.0, if stop then sendings else sendings ++ rest.1)

  -- The start of `run_esp_now_initiator`.
  unfoldable pub start : Option ℕ → IoTaskConfig → ℕ → Pool → Session → Stats → D → Initiator D
  unfolding new_pacing
  start frequency_hz io_tasks now_us pool session stats d =
      let target : Mac = unwrap_or config.peer_mac broadcast_address in
      let phy : Mac → D → D =
        λ m d'. api.set_peer_rate m (phy_mode has_ax (peer_phy config)) config.phy_rate d' in
      let d0 : D =
        if is_some config.secondary_channel then d else api.set_channel config.channel d in
      let d1 : D =
        if (not c5 && config.force_phy) && not (is_some config.secondary_channel)
        then phy target d0
        else d0 in
      let d2 : D = elim config.peer_mac [
        | none ↦ d1
        | some m ↦
            if api.peer_exists m d1
            then d1
            else (api.add_peer (record { peer_address = m; channel = config.channel }) d1).0
      ] in
      let d3 : D = elim config.peer_mac [
        | none ↦ d2
        | some m ↦ if (c5 && config.force_phy) && api.peer_exists m d2 then phy m d2 else d2
      ] in
      record {
        tx_queued_count = 0;
        tx_confirmed_count = 0;
        tx_failed_count = 0;
        control_sequence = 0;
        tx_target = target;
        known_peers = [];
        pacing = new_pacing (tx_frequency frequency_hz) io_tasks.rx_enabled now_us;
        pool = pool;
        session = session;
        stats = stats;
        driver = d3;
      }

  -- `wait_us`.
  unfoldable pub wait_us : IoTaskConfig → ℕ → Initiator D → ℕ
  unfolding wait_slice_us
  wait_us io_tasks now_us s =
      if io_tasks.tx_enabled
      then wait_slice_us io_tasks.rx_enabled now_us s.pacing
      else if io_tasks.rx_enabled
      then 20
      else 1
