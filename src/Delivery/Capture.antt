-- ===== src/Delivery/Capture.antt =====
-- src/lib/csi/delivery.rs: `capture_csi_info`, `deliver` and `CsiNodeClient::next_csi_packet`, and
-- src/lib/csi/source.rs: `emit`.
-- What leaves the node is a list of outputs. The chip's clock is an argument, and postcard's reader
-- a parameter.
use esp_csi_rs.Base.{
  ℕ, Bool, true, false, not, ◌&&◌, Option, none, some, List, [], ◌∷◌, ◌++◌, ◌==◌, ltb,
  if◌then◌else◌, length,
}
use esp_csi_rs.Base.Int.{ℤ}
use esp_csi_rs.Wire.{Chip, CsiFrame, SourceKind, HeaderDigest, RxMeta}
use esp_csi_rs.Wire.Header.{is_retry}
use esp_csi_rs.Protocol.{ControlPacket}
use esp_csi_rs.Session.{Session}
use esp_csi_rs.Packet.{CsiPacket, Device, new_packet, packet_mac}
use esp_csi_rs.Stats.{
  Stats, Cause, record_collector_rx, record_filtered, record_suppressed, record_loss,
  record_cur_bb_format, record_tx_frame,
}
use esp_csi_rs.Esp.{Info, Radio, from_wifi_csi_info}
use esp_csi_rs.Delivery.{
  Delivery, CsiDeliveryMode, apply_publish_gate, csi_passes_filter, mode_code, policy_report,
}
use esp_csi_rs.Delivery.Admit.{policy_admits, policy_admits_frame, vary}

pub data Output : Type 0 where
  raw_called : (address : ℕ) → Output
  called : (address : ℕ) → CsiPacket → Output
  woken : Output
  logged : CsiPacket → Output

-- Everything that capture reads and writes.
pub record Node : Type 0 where
  pub delivery : Delivery
  pub stats : Stats
  pub session : Session

-- The slots of `CSI_QUEUE`.
abbrev pub queue_slots : ℕ
queue_slots = 32

-- `CSI_QUEUE.enqueue` and `dequeue`: the queue, and whether the packet was taken.
unfoldable pub enqueue : CsiPacket → List CsiPacket → List CsiPacket × Bool
enqueue p q = if ltb (length q) queue_slots then (q ++ (p ∷ []), true) else (q, false)

abbrev pub dequeue : List CsiPacket → List CsiPacket × Option CsiPacket
dequeue [] = ([], none)
dequeue (p ∷ q) = (q, some p)

-- The number that the gap count is given; the esp32c5's is not usable.
abbrev pub counted_seq : Chip → RxMeta → Option ℕ
counted_seq Chip.esp32_c5 meta = none
counted_seq _ meta = meta.frame_seq

abbrev pub retry_of : Option HeaderDigest → Option Bool
retry_of none = none
retry_of (some h) = some (is_retry h)

-- The per-transmitter accounting of `deliver`.
unfoldable pub account : Chip → CsiPacket → Stats → Stats
unfolding record_tx_frame packet_mac
account chip p st =
    if st.seq_drop_detection_enabled
    then record_tx_frame (packet_mac p) (counted_seq chip p.frame.meta) (retry_of p.frame.header) st
    else st

-- The async arm of `deliver`.
unfoldable pub deliver_async : CsiPacket → Node → Node × List Output
unfolding enqueue record_loss
deliver_async p n =
    let (q, taken) = enqueue p n.delivery.csi_queue in
    if taken
    then (record n { delivery = record n.delivery { csi_queue = q } }, Output.woken ∷ [])
    else let st = record_loss Cause.queue_full 1 n.stats in
      if n.delivery.overflow_drop_oldest
      then (let (q', retaken) = enqueue p (dequeue n.delivery.csi_queue).0 in
          (
            record n { delivery = record n.delivery { csi_queue = q' }; stats = st },
            if retaken then Output.woken ∷ [] else [],
          ))
      else (record n { stats = st }, [])

abbrev pub deliver_callback : CsiPacket → Delivery → List Output
deliver_callback p d = elim d.csi_callback [ none ↦ [] | some cb ↦ Output.called cb p ∷ [] ]

-- The dispatch of `deliver`.
unfoldable pub dispatch : CsiPacket → Node → Node × List Output
unfolding deliver_async
dispatch p n =
    if n.delivery.csi_delivery_mode == mode_code CsiDeliveryMode.callback
    then (n, deliver_callback p n.delivery)
    else if n.delivery.csi_delivery_mode == mode_code CsiDeliveryMode.async
    then deliver_async p n
    else if n.delivery.csi_inline_log_enabled && not n.delivery.report_local
    then (n, Output.logged p ∷ [])
    else (n, [])

unfoldable pub deliver : Chip → CsiPacket → Node → Node × List Output
unfolding account dispatch
deliver chip p n = dispatch p (record n { stats = account chip p n.stats })

-- `emit`: whether the frame was delivered comes last.
unfoldable pub emit : Device → ℕ → SourceKind → CsiFrame → Node → Node × List Output × Bool
unfolding policy_admits_frame new_packet deliver
emit device now_us kind f n =
    if not n.delivery.csi_publish_enabled
    then (n, [], false)
    else let (d, st, admitted) = policy_admits_frame now_us f n.delivery n.stats in
      elim admitted [
        | none ↦ (record n { delivery = d; stats = st }, [], false)
        | some f' ↦
            (let (s, p) = new_packet device now_us kind f' n.session in
              let (n', out) =
                deliver device.chip p
                  (record { delivery = d; stats = record_collector_rx st; session = s }) in
              (n', out, true))
      ]

-- The histogram of the esp32c5 and the esp32c6.
abbrev pub record_format : Radio → Stats → Stats
record_format (Radio.classic c) st = st
record_format (Radio.c5 h) st = record_cur_bb_format h.cur_bb_format st
record_format (Radio.c6 h) st = record_cur_bb_format h.cur_bb_format st

-- The `packet_mode` that the filter reads.
abbrev pub filter_mode : Radio → Option ℕ
filter_mode (Radio.classic c) = some c.packet_mode
filter_mode _ = none

-- The policy's judgement in `capture_csi_info`.
unfoldable pub judge : List ℤ → ℕ → Delivery → Delivery × Bool × ℕ
unfolding policy_admits
judge buf now_us d =
    if d.policy_kind == policy_report then (d, true, 0) else policy_admits buf now_us d

module _ (take_from_bytes : List ℕ → Option (ControlPacket × List ℕ)) where
  -- From the packet build on.
  unfoldable pub build_and_deliver : Device → ℕ → ℕ → Info → Radio → Node → Node × List Output
  unfolding from_wifi_csi_info deliver record_loss
  build_and_deliver device now_us score info radio n =
      let (s, packet) = from_wifi_csi_info take_from_bytes device now_us info radio n.session in
      elim packet [
        | none ↦ (record n { stats = record_loss Cause.oversize 1 n.stats; session = s }, [])
        | some p ↦
            deliver device.chip (record p { frame = vary n.delivery score p.frame })
              (record n { session = s })
      ]

  unfoldable pub capture_csi_info : Device → ℕ → Info → Radio → Node → Node × List Output
  unfolding judge build_and_deliver csi_passes_filter record_cur_bb_format
  capture_csi_info device now_us info radio n =
      let n' : Node = record n { stats = record_format radio (record_collector_rx n.stats) } in
      elim n.delivery.csi_raw_callback [
        | some cb ↦ (n', Output.raw_called cb ∷ [])
        | none ↦
            if not n.delivery.csi_publish_enabled
            then (n', [])
            else if not (csi_passes_filter info.mac (filter_mode radio) n.delivery)
            then (record n' { stats = record_filtered n'.stats }, [])
            else (let (d, admitted, score) = judge info.buf now_us n.delivery in
                if admitted
                then build_and_deliver device now_us score info radio (record n' { delivery = d })
                else (record n' { delivery = d; stats = record_suppressed n'.stats }, []))
      ]

-- The first step of `next_csi_packet`.
unfoldable pub open_async : Delivery → Delivery
unfolding apply_publish_gate
open_async d =
    if d.csi_delivery_mode == mode_code CsiDeliveryMode.off
    then apply_publish_gate (record d {
      csi_delivery_mode = mode_code CsiDeliveryMode.async;
      user_publish_intent = true;
    })
    else d

-- One poll of `next_csi_packet`; the second `dequeue` finds what the first one left.
unfoldable pub poll_packet : Delivery → Delivery × Option CsiPacket
poll_packet d = let (q, p) = dequeue d.csi_queue in (record d { csi_queue = q }, p)
