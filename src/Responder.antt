-- ===== src/Responder.antt =====
-- src/lib/responder/esp_now.rs: the state of the responder and what one control packet does to it.
-- The driver's calls are the fields of an `EspNowDriver`, postcard's reader of a `ControlPacket` is
-- `take_from_bytes`, and the first flag says that the chip is an esp32c5. `statistics` is enabled.
pub mod Run
pub mod Locked
pub mod Promote
pub mod Sequence
pub mod Loop
pub mod Replies
mod Tests
use esp_csi_rs.Base.{
  ℕ, ◌+◌, ◌-◌, ◌*◌, ◌/◌, ◌%◌, ◌^◌, min, max, bit_and, bit_or, Bool, true, false, not, ◌&&◌, ◌||◌,
  Option, none, some, List, if◌then◌else◌, ◌==◌, ltb, is_some,
}
use esp_csi_rs.Mac.{Mac, mac_eq}
use esp_csi_rs.Model.{host_reporting}
use esp_csi_rs.EspNow.{EspNowConfig, EspNowDriver, IoTaskConfig, PeerInfo, peer_phy, phy_mode}
use esp_csi_rs.Protocol.{ControlPacket, initiator_magic_number, parse_with_magic}
use esp_csi_rs.Session.{Session, set_sounding_instance}
use esp_csi_rs.Delivery.{Delivery, set_runtime_reporting}
use esp_csi_rs.Pool.{PoolFrame, data_of}

abbrev pub peer_healthcheck_period : ℕ
peer_healthcheck_period = 256

abbrev pub mode_switch_hysteresis : ℕ
mode_switch_hysteresis = 3

-- `mac_to_u64` and `u64_to_mac`: the first byte is the lowest.
unfoldable pub mac_to_u64 : Mac → ℕ
mac_to_u64 m =
    bit_or
      (bit_or (bit_or (bit_or (bit_or m.b0 (m.b1 * 2 ^ 8)) (m.b2 * 2 ^ 16)) (m.b3 * 2 ^ 24))
        (m.b4 * 2 ^ 32))
      (m.b5 * 2 ^ 40)

unfoldable pub u64_to_mac : ℕ → Mac
u64_to_mac v = record {
  b0 = bit_and v 0xFF;
  b1 = bit_and (v / 2 ^ 8) 0xFF;
  b2 = bit_and (v / 2 ^ 16) 0xFF;
  b3 = bit_and (v / 2 ^ 24) 0xFF;
  b4 = bit_and (v / 2 ^ 32) 0xFF;
  b5 = bit_and (v / 2 ^ 40) 0xFF;
}

pub record Shared : Type 0 where
  pub is_connected : Bool
  pub reports : Bool
  pub initiator_mac : ℕ
  pub peer_healthcheck_counter : ℕ
  pub last_control_sequence : ℕ
  pub sequence_initialized : Bool
  pub pending_flag : Bool
  pub last_initiator_silent : Bool
  pub mode_streak : ℕ

-- The counters behind `get_rx_parse_fail_packets` to `get_rx_tx_guard_breaks`.
pub record Diagnostics : Type 0 where
  pub rx_parse_fail_count : ℕ
  pub rx_magic_drop_count : ℕ
  pub rx_source_filter_drop_count : ℕ
  pub rx_peer_add_fail_count : ℕ
  pub rx_sequence_miss_count : ℕ
  pub rx_control_packet_count : ℕ
  pub rx_tx_guard_break_count : ℕ

-- `reset_rx_diagnostics`.
abbrev pub zero_diagnostics : Diagnostics
zero_diagnostics = record {
  rx_parse_fail_count = 0;
  rx_magic_drop_count = 0;
  rx_source_filter_drop_count = 0;
  rx_peer_add_fail_count = 0;
  rx_sequence_miss_count = 0;
  rx_control_packet_count = 0;
  rx_tx_guard_break_count = 0;
}

abbrev pub fetch_add : ℕ → ℕ → ℕ
fetch_add n k = (n + k) % 2 ^ 64

-- `RAW_LISTEN`, the responder's state and counters, the session's and the delivery's statics, and
-- the driver.
pub record Responder (D : Type 0) : Type 0 where
  pub raw_listen : Bool
  pub shared : Shared
  pub diagnostics : Diagnostics
  pub session : Session
  pub delivery : Delivery
  pub driver : D

-- `unicast_replies`.
abbrev pub unicast_replies : Bool → EspNowConfig → Bool
unicast_replies c5 config = is_some config.secondary_channel || (c5 && config.force_phy)

-- `BROADCAST_ADDRESS`.
abbrev pub broadcast_address : Mac
broadcast_address = record { b0 = 255; b1 = 255; b2 = 255; b3 = 255; b4 = 255; b5 = 255 }

unfoldable pub reply_destination : Bool → EspNowConfig → Shared → Mac
unfolding u64_to_mac
reply_destination c5 config s =
    if unicast_replies c5 config then u64_to_mac s.initiator_mac else broadcast_address

-- Responder state at the start of `responder`; `host_reports` is the flag `REPORTS`.
unfoldable pub new_shared : EspNowConfig → Bool → Shared
unfolding mac_to_u64
new_shared config host_reports = record {
  is_connected = is_some config.peer_mac;
  reports = host_reports;
  initiator_mac = elim config.peer_mac [ none ↦ 0 | some m ↦ mac_to_u64 m ];
  peer_healthcheck_counter = 0;
  last_control_sequence = 0;
  sequence_initialized = false;
  pending_flag = false;
  last_initiator_silent = false;
  mode_streak = 0;
}

-- `initiator_silent != prev_seen`.
abbrev pub differ : Bool → Bool → Bool
differ a b = if a then not b else b

-- `gap - 1` where the gap is more than 1, else 0.
abbrev pub missed : ℕ → Shared → ℕ
missed sequence_number s =
    if s.sequence_initialized then sequence_number - s.last_control_sequence - 1 else 0

-- `fetch_add` of a positive number.
abbrev pub add_some : ℕ → ℕ → ℕ
add_some n k = if ltb 0 k then fetch_add n k else n

module _ {D : Type 0} where
  -- The drops, by their counters.
  abbrev pub count_source_drop : Responder D → Responder D
  count_source_drop r = record r {
    diagnostics = record r.diagnostics {
      rx_source_filter_drop_count = fetch_add r.diagnostics.rx_source_filter_drop_count 1;
    };
  }

  abbrev pub count_parse_drop : Bool → Responder D → Responder D
  count_parse_drop expect_magic r = record r {
    diagnostics = record r.diagnostics {
      rx_magic_drop_count =
          if expect_magic
          then fetch_add r.diagnostics.rx_magic_drop_count 1
          else r.diagnostics.rx_magic_drop_count;
      rx_parse_fail_count =
          if expect_magic
          then r.diagnostics.rx_parse_fail_count
          else fetch_add r.diagnostics.rx_parse_fail_count 1;
    };
  }

  unfoldable pub count_control : ℕ → Responder D → Responder D
  count_control sequence_number r = record r {
    diagnostics = record r.diagnostics {
      rx_control_packet_count = fetch_add r.diagnostics.rx_control_packet_count 1;
      rx_sequence_miss_count =
          add_some r.diagnostics.rx_sequence_miss_count (missed sequence_number r.shared);
    };
    shared = record r.shared {
      sequence_initialized = true;
      last_control_sequence = sequence_number;
    };
  }

  -- The hysteresis on what the initiator announces.
  unfoldable pub follow : Bool → Responder D → Responder D
  unfolding set_runtime_reporting
  follow silent r =
      let s : Shared = r.shared in
      let changed : Bool = differ silent s.last_initiator_silent in
      let streak : ℕ = min (s.mode_streak + 1) 255 in
      let promoted : Bool =
        ((not changed && streak == mode_switch_hysteresis) && silent) && not s.reports in
      record r {
        shared = record s {
          last_initiator_silent = silent;
          mode_streak = if changed then 1 else streak;
          reports = promoted || s.reports;
        };
        delivery = if promoted then set_runtime_reporting host_reporting r.delivery else r.delivery;
      }

  module _ (api : EspNowDriver D) (c5 has_ax : Bool) (config : EspNowConfig) where
    -- `apply_initiator_peer_phy`.
    abbrev pub apply_initiator_peer_phy : Mac → D → D
    apply_initiator_peer_phy mac d =
        if config.force_phy && unicast_replies c5 config
        then api.set_peer_rate mac (phy_mode has_ax (peer_phy config)) config.phy_rate d
        else d

    -- `register_initiator_peer`: the driver, and whether the peer is there.
    unfoldable pub register_initiator_peer : Mac → D → D × Bool
    register_initiator_peer mac d =
        let add_res : D × Bool =
          if api.peer_exists mac d
          then (d, true)
          else api.add_peer (record { peer_address = mac; channel = config.channel }) d in
        (if add_res.1 then apply_initiator_peer_phy mac add_res.0 else add_res.0, add_res.1)

    -- The driver after a registration, and its failure counted.
    abbrev pub registered : Mac → Responder D → Responder D
    registered mac r =
        let res : D × Bool = register_initiator_peer mac r.driver in
        record r {
          driver = res.0;
          diagnostics = record r.diagnostics {
            rx_peer_add_fail_count =
                add_some r.diagnostics.rx_peer_add_fail_count (if res.1 then 0 else 1);
          };
        }

    -- The first valid initiator is locked onto if the driver takes it as a peer.
    unfoldable pub lock_on : Mac → Responder D → Responder D
    unfolding register_initiator_peer mac_to_u64
    lock_on src r =
        let ok : Bool = (register_initiator_peer src r.driver).1 in
        record (registered src r) {
          shared = record r.shared {
            initiator_mac = if ok then mac_to_u64 src else r.shared.initiator_mac;
            peer_healthcheck_counter = if ok then 0 else r.shared.peer_healthcheck_counter;
            is_connected = ok || r.shared.is_connected;
          };
        }

    -- Every 256th packet of the locked initiator checks that the driver still has the peer.
    unfoldable pub healthcheck : Responder D → Responder D
    unfolding register_initiator_peer u64_to_mac
    healthcheck r =
        let counter : ℕ = (r.shared.peer_healthcheck_counter + 1) % 2 ^ 16 in
        let due : Bool = bit_and counter (peer_healthcheck_period - 1) == 0 in
        let r' : Responder D = registered (u64_to_mac r.shared.initiator_mac) r in
        record r {
          shared = record r.shared { peer_healthcheck_counter = counter };
          driver = if due then r'.driver else r.driver;
          diagnostics = record r.diagnostics {
            rx_peer_add_fail_count =
                if due
                then r'.diagnostics.rx_peer_add_fail_count
                else r.diagnostics.rx_peer_add_fail_count;
          };
        }

    abbrev pub raise_pending : Responder D → Responder D
    raise_pending r = record r { shared = record r.shared { pending_flag = true } }

    unfoldable pub pair : Bool → Bool → Mac → Responder D → Responder D
    unfolding lock_on healthcheck
    pair tx_enabled was_connected src r =
        if tx_enabled
        then raise_pending (if was_connected then healthcheck r else lock_on src r)
        else r

    -- What a packet that parses does.
    unfoldable pub accept : Bool → Mac → ControlPacket → Responder D → Responder D
    unfolding count_control pair follow
    accept tx_enabled src packet r =
        let r' : Responder D = record r {
          session = set_sounding_instance packet.sequence_number r.session;
        } in
        follow (not packet.initiator_reports)
          (pair tx_enabled r.shared.is_connected src (count_control packet.sequence_number r'))

    -- The `let else` on the parsed packet.
    unfoldable pub ingest_parsed : Bool → Mac → Option ControlPacket → Responder D → Responder D
    unfolding accept
    ingest_parsed tx_enabled src none r = count_parse_drop (not (is_some config.peer_mac)) r
    ingest_parsed tx_enabled src (some packet) r = accept tx_enabled src packet r

    -- `ingest_control_packet`.
    unfoldable pub ingest_control_packet :
        (List ℕ → Option (ControlPacket × List ℕ)) → Bool → PoolFrame → Responder D → Responder D
    unfolding ingest_parsed parse_with_magic u64_to_mac
    ingest_control_packet take_from_bytes tx_enabled f r =
        let src : Mac = f.info.src_address in
        let expect_magic : Bool = not (is_some config.peer_mac) in
        if r.raw_listen
        then r
        else if r.shared.is_connected && not (mac_eq (u64_to_mac r.shared.initiator_mac) src)
        then count_source_drop r
        else ingest_parsed tx_enabled src
            (parse_with_magic take_from_bytes (data_of f) initiator_magic_number expect_magic) r
