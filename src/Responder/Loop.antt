-- ===== src/Responder/Loop.antt =====
-- src/lib/responder/esp_now.rs: one pass of the loop of `responder`, its RX burst, its replies and
-- its wait. What the clock reads, what a send gives, the frames that arrive and the STOP signal are
-- the pass's `Turn`; postcard's writer of a `ResponderPacket` is `to_slice`.
use esp_csi_rs.Base.{
  ℕ, zero, suc, ◌+◌, ◌-◌, ◌^◌, Bool, true, false, not, ◌&&◌, Option, none, some, List, [], ◌∷◌,
  ◌++◌, if◌then◌else◌, ltb, leb, is_some,
}
use esp_csi_rs.Mac.{Mac}
use esp_csi_rs.EspNow.{EspNowConfig, EspNowDriver, IoTaskConfig, SendResult, peer_phy, phy_mode}
use esp_csi_rs.Protocol.{ControlPacket, Serialized, responder_magic_number, serialize_with_magic}
use esp_csi_rs.Stats.{Stats, record_tx}
use esp_csi_rs.Pool.{Pool, arrive, PoolFrame, receive}
use esp_csi_rs.Pacing.{
  Pacing, Turn, is_sent, tx_catch_up_burst, rx_burst_max_with_tx, rx_reserved_tx_guard_us,
  new_pacing, pace, schedule_next, wait_slice_us,
}
use esp_csi_rs.Responder.{
  Responder, Shared, fetch_add, broadcast_address, zero_diagnostics, new_shared,
  register_initiator_peer, registered, reply_destination, ingest_control_packet,
}

abbrev pub responder_packet_buf_len : ℕ
responder_packet_buf_len = 8

abbrev pub rx_burst_max_rx_only : ℕ
rx_burst_max_rx_only = 64

abbrev pub responder_beacon_sentinel : ℕ
responder_beacon_sentinel = 0

-- The responder's task, with the pool it reads, its pacing and the statistics.
pub record Task (D : Type 0) : Type 0 where
  pub responder : Responder D
  pub pool : Pool
  pub pacing : Pacing
  pub stats : Stats

-- A frame handed to the driver.
pub record Reply : Type 0 where
  pub dest : Mac
  pub message : List ℕ

-- `frequency_hz` of `run_esp_now_responder`.
abbrev pub frequency_hz : Option ℕ → ℕ
frequency_hz none = 2 ^ 16 - 1
frequency_hz (some freq) = freq

abbrev pub reply_pending : Shared → Bool
reply_pending s = s.is_connected && s.pending_flag

-- The beacon: the magic number where it is sent, else the sentinel.
unfoldable pub beacon : (Unit {0} → ℕ → Option (List ℕ)) → EspNowConfig → Option (List ℕ)
unfolding serialize_with_magic
beacon to_slice config =
    if is_some config.peer_mac
    then some (responder_beacon_sentinel ∷ [])
    else (elim (serialize_with_magic to_slice tt responder_magic_number true
        responder_packet_buf_len) [ Serialized.written message ↦ some message | _ ↦ none ])

module _ {D : Type 0} where
  abbrev pub count_guard_break : Task D → Task D
  count_guard_break t = record t {
    responder = record t.responder {
      diagnostics = record t.responder.diagnostics {
        rx_tx_guard_break_count = fetch_add t.responder.diagnostics.rx_tx_guard_break_count 1;
      };
    };
  }

  -- The task after a send: the flag taken, the pacing stepped and rescheduled, a success counted.
  unfoldable pub after_send : Bool → SendResult → Task D → Task D
  unfolding pace
  after_send adaptive result t = record t {
    pacing = schedule_next (pace adaptive result t.pacing);
    stats = if is_sent result then record_tx t.stats else t.stats;
  }

  abbrev pub take_pending : Task D → Task D
  take_pending t = record t {
    responder = record t.responder { shared = record t.responder.shared { pending_flag = false } };
  }

  abbrev pub arrived : Turn → Task D → Task D
  arrived turn t = record t { pool = arrive turn.arrivals t.pool }

module _ {D : Type 0} (api : EspNowDriver D) (c5 has_ax : Bool) (config : EspNowConfig)
    (take_from_bytes : List ℕ → Option (ControlPacket × List ℕ))
    (to_slice : Unit {0} → ℕ → Option (List ℕ)) where
  -- The start of `run_esp_now_responder` and of `responder`: manual pairing registers the peer up
  -- front.
  unfoldable pub start : Option ℕ → IoTaskConfig → Bool → ℕ → Responder D → Pool → Stats → Task D
  unfolding new_shared register_initiator_peer new_pacing
  start freq_hz io_tasks host_reports now_us r pool stats =
      let d : D =
        if is_some config.secondary_channel
        then r.driver
        else api.set_channel config.channel r.driver in
      let r' : Responder D = record r {
        shared = new_shared config host_reports;
        diagnostics = zero_diagnostics;
        driver =
            if (not c5 && config.force_phy) && not (is_some config.secondary_channel)
            then api.set_peer_rate broadcast_address (phy_mode has_ax (peer_phy config))
                config.phy_rate d
            else d;
      } in
      record {
        responder = elim config.peer_mac [
          | none ↦ r'
          | some mac ↦ if io_tasks.tx_enabled then registered api c5 has_ax config mac r' else r'
        ];
        pool = pool;
        pacing = new_pacing (frequency_hz freq_hz) io_tasks.rx_enabled now_us;
        stats = stats;
      }

  -- `ingest_control_packet` on the frame that `receive` gave.
  abbrev pub ingest_from : Bool → Pool → PoolFrame → Task D → Task D
  ingest_from tx_enabled pool f t = record t {
    pool = pool;
    responder = ingest_control_packet api c5 has_ax config take_from_bytes tx_enabled f t.responder;
  }

  -- The RX burst with `budget` rounds left and `rx_packets` done.
  unfoldable pub rx_burst : ℕ → ℕ → Turn → Task D → Task D
  unfolding ingest_control_packet receive
  rx_burst zero rx_packets turn t = t
  rx_burst (suc budget) rx_packets turn t =
      let deadline : ℕ =
        if reply_pending t.responder.shared
        then t.pacing.next_tx_us - rx_reserved_tx_guard_us
        else 2 ^ 64 - 1 in
      elim (ltb 0 rx_packets && leb deadline (turn.guard_us rx_packets)) [
        | true ↦ count_guard_break t
        | false ↦ (elim (receive t.pool).1 [
          | none ↦ t
          | some f ↦ rx_burst budget (rx_packets + 1) turn (ingest_from true (receive t.pool).0 f t)
        ])
      ]

  -- The replies that are due, with `budget` rounds left and `k` sends done.
  unfoldable pub tx_burst : ℕ → ℕ → Bool → Turn → Task D → Task D × List Reply
  unfolding beacon after_send reply_destination
  tx_burst zero k adaptive turn t = (t, [])
  tx_burst (suc budget) k adaptive turn t =
      let due : Bool = leb t.pacing.next_tx_us (turn.now_us k) in
      elim (due && reply_pending t.responder.shared) [
        | false ↦ (t, [])
        | true ↦ (elim (beacon to_slice config) [
          | none ↦ (take_pending t, [])
          | some message ↦
              (let t' : Task D = after_send adaptive (turn.result k) (take_pending t) in
                let reply : Reply = record {
                  dest = reply_destination c5 config t.responder.shared;
                  message = message;
                } in
                elim (is_sent (turn.result k)) [
                  | false ↦ (t', reply ∷ [])
                  | true ↦
                      (let (t'', replies) = tx_burst budget (suc k) adaptive turn t' in
                        (t'', reply ∷ replies))
                ])
        ])
      ]

  -- The RX-only drain after the frame that woke the task.
  unfoldable pub drain : ℕ → Task D → Task D
  unfolding ingest_control_packet receive
  drain zero t = t
  drain (suc budget) t = elim (receive t.pool).1 [
    | none ↦ t
    | some f ↦ drain budget (ingest_from false (receive t.pool).0 f t)
  ]

  -- The RX-only wait: the STOP signal, a frame and what stacked up behind it, or still waiting.
  unfoldable pub rx_only : Turn → Task D → Task D
  unfolding drain
  rx_only turn t = if turn.stop then t else (elim (receive t.pool).1 [
    | none ↦ t
    | some f ↦ drain rx_burst_max_rx_only (ingest_from false (receive t.pool).0 f t)
  ])

  -- One pass: the task, the replies handed to the driver, and whether the loop ends.
  unfoldable pub pass : IoTaskConfig → Turn → Task D → Task D × List Reply × Bool
  unfolding rx_burst tx_burst rx_only
  pass io_tasks turn t =
      let adaptive : Bool = io_tasks.rx_enabled && io_tasks.tx_enabled in
      let t1 : Task D = arrived turn t in
      let t2 : Task D = if adaptive then rx_burst rx_burst_max_with_tx 0 turn t1 else t1 in
      let sent : Task D × List Reply =
        if io_tasks.tx_enabled then tx_burst tx_catch_up_burst 0 adaptive turn t2 else (t2, []) in
      (
        if not io_tasks.tx_enabled && io_tasks.rx_enabled then rx_only turn sent.0 else sent.0,
        sent.1,
        turn.stop,
      )

  -- The loop over the passes, until STOP.
  unfoldable pub run : IoTaskConfig → List Turn → Task D → Task D × List Reply
  unfolding pass
  run io_tasks [] t = (t, [])
  run io_tasks (turn ∷ turns) t =
      let (t', replies, stop) = pass io_tasks turn t in
      let rest = run io_tasks turns t' in
      (if stop then t' else rest.0, if stop then replies else replies ++ rest.1)

  -- `wait_us`.
  unfoldable pub wait_us : IoTaskConfig → ℕ → Task D → ℕ
  unfolding wait_slice_us
  wait_us io_tasks now_us t =
      if io_tasks.tx_enabled && reply_pending t.responder.shared
      then wait_slice_us io_tasks.rx_enabled now_us t.pacing
      else 1
