-- ===== src/Delivery/Paths.antt =====
-- The outputs and the count of one captured frame, over all branches.
use esp_csi_rs.Base.{
  ℕ, ◌+◌, ◌%◌, ◌^◌, ◌≤◌, ◌≡◌, refl, ◌∙◌, Bool, true, false, Bool-cases, Option-cases, Option, List,
  [], ◌∷◌, ◌==◌, ltb, not, ◌&&◌, if◌then◌else◌, inl, inr, length, arith,
}
use esp_csi_rs.Wire.{Chip}
use esp_csi_rs.Protocol.{ControlPacket}
use esp_csi_rs.Packet.{CsiPacket, Device}
use esp_csi_rs.Stats.{
  Stats, Cause, count_gap, record_loss, record_tx_frame, record_cur_bb_format, record_collector_rx,
}
use esp_csi_rs.Esp.{Info, Radio, from_wifi_csi_info}
use esp_csi_rs.Delivery.{Delivery, csi_passes_filter}
use esp_csi_rs.Delivery.Admit.{vary}
use esp_csi_rs.Delivery.Capture.{
  Node, Output, enqueue, dequeue, account, deliver_async, deliver_callback, dispatch, deliver,
  judge, record_format, filter_mode, build_and_deliver, capture_csi_info,
}

-- The count of received frames is given, and there is at most one output.
record IsOne (count : ℕ) (r : Node × List Output) : Type 0 where
  counted : r.0.stats.rx_count ≡ count
  one : length r.1 ≤ 1

record_loss-rx_count : (c : Cause) (n : ℕ) (s : Stats) → (record_loss c n s).rx_count ≡ s.rx_count
unfolding record_loss
record_loss-rx_count Cause.oversize n s = refl
record_loss-rx_count Cause.queue_full n s = refl
record_loss-rx_count Cause.seq_gap n s = refl

count_gap-rx_count : (gap : ℕ) (s : Stats) → (count_gap gap s).rx_count ≡ s.rx_count
unfolding count_gap
count_gap-rx_count gap s = elim (Bool-cases (ltb 0 gap)) [
  | inl e ↦ rw (e, if◌then◌else◌) (record_loss-rx_count Cause.seq_gap gap s)
  | inr e ↦ rw (e, if◌then◌else◌) refl
]

account-rx_count :
    (chip : Chip) (p : CsiPacket) (s : Stats) → (account chip p s).rx_count ≡ s.rx_count
unfolding account record_tx_frame
account-rx_count chip p s = elim (Bool-cases s.seq_drop_detection_enabled) [
  | inl e ↦ rw (account, e, if◌then◌else◌) (count_gap-rx_count _ _)
  | inr e ↦ rw (account, e, if◌then◌else◌) refl
]

IsOne-if :
    {c : ℕ} {x y : Node × List Output} (b : Bool)
    → IsOne c x
    → IsOne c y
    → IsOne c (if b then x else y)
IsOne-if true h k = h
IsOne-if false h k = k

woken_at_most : (b : Bool) → length (if b then Output.woken ∷ [] else []) ≤ 1
woken_at_most true = omega arith
woken_at_most false = omega arith

deliver_async-IsOne : (p : CsiPacket) (n : Node) → IsOne n.stats.rx_count (deliver_async p n)
unfolding deliver_async
deliver_async-IsOne p n =
    IsOne-if (enqueue p n.delivery.csi_queue).1 (record { counted = refl; one = omega arith })
      (IsOne-if n.delivery.overflow_drop_oldest
        (record {
          counted = record_loss-rx_count Cause.queue_full 1 n.stats;
          one = woken_at_most (enqueue p (dequeue n.delivery.csi_queue).0).1;
        })
        (record { counted = record_loss-rx_count Cause.queue_full 1 n.stats; one = omega arith }))

deliver_callback_one : (p : CsiPacket) (d : Delivery) → length (deliver_callback p d) ≤ 1
deliver_callback_one p d = elim (Option-cases d.csi_callback) [
  | inl e ↦ rw (e, deliver_callback) (omega arith)
  | inr (cb, e) ↦ rw (e, deliver_callback) (omega arith)
]

dispatch-IsOne : (p : CsiPacket) (n : Node) → IsOne n.stats.rx_count (dispatch p n)
unfolding dispatch
dispatch-IsOne p n =
    IsOne-if (n.delivery.csi_delivery_mode == 1)
      (record { counted = refl; one = deliver_callback_one p n.delivery })
      (IsOne-if (n.delivery.csi_delivery_mode == 2) (deliver_async-IsOne p n) (
        IsOne-if (n.delivery.csi_inline_log_enabled && not n.delivery.report_local)
          (record { counted = refl; one = omega arith })
          (record { counted = refl; one = omega arith })))

deliver-IsOne : (chip : Chip) (p : CsiPacket) (n : Node) → IsOne n.stats.rx_count (deliver chip p n)
unfolding deliver
deliver-IsOne chip p n =
    let r : IsOne (account chip p n.stats).rx_count
        (dispatch p (record n { stats = account chip p n.stats })) =
      dispatch-IsOne p (record n { stats = account chip p n.stats }) in
    record { counted = r.counted ∙ account-rx_count chip p n.stats; one = r.one }

record_format-rx_count : (radio : Radio) (s : Stats) → (record_format radio s).rx_count ≡ s.rx_count
unfolding record_cur_bb_format
record_format-rx_count (Radio.classic c) s = refl
record_format-rx_count (Radio.c5 h) s = elim (Bool-cases (ltb h.cur_bb_format 8)) [
  | inl e ↦ rw (e, if◌then◌else◌) refl
  | inr e ↦ rw (e, if◌then◌else◌) refl
]
record_format-rx_count (Radio.c6 h) s = elim (Bool-cases (ltb h.cur_bb_format 8)) [
  | inl e ↦ rw (e, if◌then◌else◌) refl
  | inr e ↦ rw (e, if◌then◌else◌) refl
]

module _ (take_from_bytes : List ℕ → Option (ControlPacket × List ℕ)) where
  build_and_deliver-IsOne :
      (device : Device) (now_us score : ℕ) (info : Info) (radio : Radio) (n : Node)
      → IsOne n.stats.rx_count (build_and_deliver take_from_bytes device now_us score info radio n)
  unfolding build_and_deliver
  build_and_deliver-IsOne device now_us score info radio n =
      elim (Option-cases
        (from_wifi_csi_info take_from_bytes device now_us info radio n.session).1) [
          | inl e ↦
              rw (build_and_deliver, e)
                (record {
                  counted = record_loss-rx_count Cause.oversize 1 n.stats;
                  one = omega arith;
                })
          | inr (p, e) ↦
              rw (build_and_deliver, e)
                (deliver-IsOne device.chip (record p { frame = vary n.delivery score p.frame })
                  (record n {
                    session =
                        (from_wifi_csi_info take_from_bytes device now_us info radio n.session).0;
                  }))
        ]

  -- The whole of `capture_csi_info`.
  admitted-IsOne :
      (device : Device) (now_us : ℕ) (info : Info) (radio : Radio) (n : Node)
      → IsOne
          ((n.stats.rx_count + 1) % 2 ^ 64)
          (capture_csi_info take_from_bytes device now_us info radio n)
  unfolding capture_csi_info
  admitted-IsOne device now_us info radio n =
      let st : Stats = record_format radio (record_collector_rx n.stats) in
      let start : st.rx_count ≡ (n.stats.rx_count + 1) % 2 ^ 64 =
        record_format-rx_count radio (record_collector_rx n.stats) in
      let (d, admitted, score) = judge info.buf now_us n.delivery in
      let n' : Node = record n { stats = st; delivery = d } in
      let r : IsOne st.rx_count
          (build_and_deliver take_from_bytes device now_us score info radio n') =
        build_and_deliver-IsOne device now_us score info radio n' in
      elim (Option-cases n.delivery.csi_raw_callback) [
        | inr (cb, e) ↦ rw (capture_csi_info, e) (record { counted = start; one = omega arith })
        | inl e ↦
            rw (capture_csi_info, e)
              (IsOne-if (not n.delivery.csi_publish_enabled)
                (record { counted = start; one = omega arith })
                (IsOne-if (not (csi_passes_filter info.mac (filter_mode radio) n.delivery))
                  (record { counted = start; one = omega arith })
                  (IsOne-if admitted (record { counted = r.counted ∙ start; one = r.one })
                    (record { counted = start; one = omega arith }))))
      ]

  -- Whatever the gates, the filters, the policy, the buffer and the mode: every captured frame is
  -- counted as received once, modulo 2^64, and causes at most one output (a call of the raw
  -- callback or of the callback, a wake of the queue's consumer, or a logged line).
  pub capture_csi_info-one :
      (device : Device) (now_us : ℕ) (info : Info) (radio : Radio) (n : Node)
      → ((capture_csi_info take_from_bytes device now_us info radio n).0.stats.rx_count
          ≡ (n.stats.rx_count + 1) % 2 ^ 64)
        × (length (capture_csi_info take_from_bytes device now_us info radio n).1 ≤ 1)
  capture_csi_info-one device now_us info radio n =
      let r : IsOne ((n.stats.rx_count + 1) % 2 ^ 64)
          (capture_csi_info take_from_bytes device now_us info radio n) =
        admitted-IsOne device now_us info radio n in
      (r.counted, r.one)
