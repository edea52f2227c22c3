-- ===== src/Delivery/Queue.antt =====
-- What the async queue holds after a burst that the consumer does not drain.
use esp_csi_rs.Base.{
  ℕ, suc, ◌+◌, ◌-◌, ◌%◌, ◌^◌, ◌≤◌, ◌<◌, ◌≡◌, refl, sym, ap, subst, ◌∙◌, Bool, true, false,
  Bool-cases, List, [], ◌∷◌, ◌++◌, ltb, if◌then◌else◌, ◌⊎◌, inl, inr, length, take, drop,
  length-append, snoc-append, append_nil, take_full, take_short, arith,
}
use esp_csi_rs.Wire.{Chip}
use esp_csi_rs.Packet.{CsiPacket}
use esp_csi_rs.Stats.{Stats, count_gap, record_loss, record_tx_frame}
use esp_csi_rs.Delivery.Capture.{
  Node, queue_slots, enqueue, account, deliver_async, dispatch, deliver,
}

-- The node after packets are delivered one after the other.
unfoldable pub deliver_all : Chip → List CsiPacket → Node → Node
deliver_all chip [] n = n
deliver_all chip (p ∷ ps) n = deliver_all chip ps (deliver chip p n).0

-- An async node with its overflow policy, its queue and its count of queue losses.
pub record Stands (drop_oldest : Bool) (q : List CsiPacket) (lost : ℕ) (n : Node) : Type 0 where
  pub mode : n.delivery.csi_delivery_mode ≡ 2
  pub policy : n.delivery.overflow_drop_oldest ≡ drop_oldest
  pub queue : n.delivery.csi_queue ≡ q
  pub count : n.stats.rx_queue_full ≡ lost % 2 ^ 32

count_gap-rx_queue_full : (gap : ℕ) (s : Stats) → (count_gap gap s).rx_queue_full ≡ s.rx_queue_full
unfolding count_gap record_loss
count_gap-rx_queue_full gap s = elim (Bool-cases (ltb 0 gap)) [
  | inl e ↦ rw (e, if◌then◌else◌) refl
  | inr e ↦ rw (e, if◌then◌else◌) refl
]

account-rx_queue_full :
    (chip : Chip) (p : CsiPacket) (s : Stats) → (account chip p s).rx_queue_full ≡ s.rx_queue_full
unfolding account record_tx_frame
account-rx_queue_full chip p s = elim (Bool-cases s.seq_drop_detection_enabled) [
  | inl e ↦ rw (account, e, if◌then◌else◌) (count_gap-rx_queue_full _ _)
  | inr e ↦ rw (account, e, if◌then◌else◌) refl
]

next_count : (lost c : ℕ) → c ≡ lost % 2 ^ 32 → (c + 1) % 2 ^ 32 ≡ (lost + 1) % 2 ^ 32
next_count lost c h = omega arith

-- One delivery with room in the queue.
deliver_room :
    (chip : Chip) (oldest : Bool) (p : CsiPacket) (q : List CsiPacket) (lost : ℕ) (n : Node)
    → Stands oldest q lost n
    → length q < queue_slots
    → Stands oldest (q ++ (p ∷ [])) lost (deliver chip p n).0
unfolding deliver dispatch deliver_async enqueue
deliver_room chip oldest p q lost n h room =
    let fits : ltb (length q) queue_slots ≡ true = ground arith in
    rw (h.mode, h.queue, fits)
      (record {
        mode = refl;
        policy = h.policy;
        queue = refl;
        count = account-rx_queue_full chip p n.stats ∙ h.count;
      })

-- One delivery to a full queue that keeps what it has.
deliver_newest :
    (chip : Chip) (p : CsiPacket) (q : List CsiPacket) (lost : ℕ) (n : Node)
    → Stands false q lost n
    → length q ≡ queue_slots
    → Stands false q (lost + 1) (deliver chip p n).0
unfolding deliver dispatch deliver_async enqueue record_loss
deliver_newest chip p q lost n h full =
    let fits : ltb (length q) queue_slots ≡ false = rw full refl in
    let count : (account chip p n.stats).rx_queue_full ≡ lost % 2 ^ 32 =
      account-rx_queue_full chip p n.stats ∙ h.count in
    rw (h.mode, h.queue, fits, h.policy)
      (record { mode = refl; policy = refl; queue = refl; count = next_count lost _ count })

-- One delivery to a full queue that drops its oldest packet.
deliver_oldest :
    (chip : Chip) (p x : CsiPacket) (q : List CsiPacket) (lost : ℕ) (n : Node)
    → Stands true (x ∷ q) lost n
    → length (x ∷ q) ≡ queue_slots
    → Stands true (q ++ (p ∷ [])) (lost + 1) (deliver chip p n).0
unfolding deliver dispatch deliver_async enqueue record_loss
deliver_oldest chip p x q lost n h full =
    let fits : ltb (length (x ∷ q)) queue_slots ≡ false = rw full refl in
    let refits : ltb (length q) queue_slots ≡ true = ground arith in
    let count : (account chip p n.stats).rx_queue_full ≡ lost % 2 ^ 32 =
      account-rx_queue_full chip p n.stats ∙ h.count in
    rw (h.mode, h.queue, fits, h.policy, refits)
      (record { mode = refl; policy = refl; queue = refl; count = next_count lost _ count })

-- A list of at most 32 packets is full or has room.
room_cases : (n : ℕ) → n ≤ queue_slots → (n < queue_slots) ⊎ (n ≡ queue_slots)
room_cases n h = ground arith

-- What is lost of a burst is what the queue had no room for.
abbrev pub excess : List CsiPacket → ℕ
excess all' = length all' - queue_slots

restate :
    {oldest : Bool} {q q' : List CsiPacket} {lost lost' : ℕ} {n : Node}
    → Stands oldest q lost n
    → q ≡ q'
    → lost ≡ lost'
    → Stands oldest q' lost' n
restate {oldest = oldest} {q = q} {lost' = lost'} {n = n} h e f =
    subst (λ x. Stands oldest x lost' n) e (subst (λ x. Stands oldest q x n) f h)

-- An async node that drops the newest, with at most 32 packets queued, keeps the first 32 of the
-- packets queued and delivered since, and counts the others as lost, modulo 2^32.
pub deliver_all-newest :
    (chip : Chip) (ps q : List CsiPacket) (lost : ℕ) (n : Node)
    → Stands false q lost n
    → length q ≤ queue_slots
    → Stands false (take queue_slots (q ++ ps)) (lost + excess (q ++ ps)) (deliver_all chip ps n)
unfolding deliver_all
deliver_all-newest chip [] q lost n h small =
    restate h (sym (take_short queue_slots q small)) (omega (arith, length-append q [], small))
deliver_all-newest chip (p ∷ ps) q lost n h small = elim (room_cases (length q) small) [
  | inl room ↦
      restate
        (deliver_all-newest chip ps (q ++ (p ∷ [])) lost (deliver chip p n).0
          (deliver_room chip false p q lost n h room) (omega (arith, length-append q (p ∷ []))))
        (ap (take queue_slots) (snoc-append q ps p))
        (ap (λ l. lost + excess l) (snoc-append q ps p))
  | inr full ↦
      restate
        (deliver_all-newest chip ps q (lost + 1) (deliver chip p n).0
          (deliver_newest chip p q lost n h full) small)
        (take_full queue_slots q ps full ∙ sym (take_full queue_slots q (p ∷ ps) full))
        (omega (arith, length-append q ps, length-append q (p ∷ ps), full))
]

drop-excess :
    (x : CsiPacket) (r : List CsiPacket)
    → queue_slots ≤ length r
    → drop (excess r) r ≡ drop (excess (x ∷ r)) (x ∷ r)
drop-excess x r h = let e : excess (x ∷ r) ≡ suc (excess r) = omega arith in rw e refl

-- An async node that drops the oldest, with at most 32 packets queued, keeps the last 32 of the
-- packets queued and delivered since, and counts the others as lost, modulo 2^32.
pub deliver_all-oldest :
    (chip : Chip) (ps q : List CsiPacket) (lost : ℕ) (n : Node)
    → Stands true q lost n
    → length q ≤ queue_slots
    → Stands true
        (drop (excess (q ++ ps)) (q ++ ps))
        (lost + excess (q ++ ps))
        (deliver_all chip ps n)
unfolding deliver_all
deliver_all-oldest chip [] q lost n h small =
    let none_lost : excess (q ++ []) ≡ 0 = omega (arith, length-append q []) in
    restate h (rw none_lost (sym (append_nil q))) (omega (arith, none_lost))
deliver_all-oldest chip (p ∷ ps) [] lost n h small =
    deliver_all-oldest chip ps (p ∷ []) lost (deliver chip p n).0
      (deliver_room chip true p [] lost n h (omega arith)) (omega arith)
deliver_all-oldest chip (p ∷ ps) (x ∷ q) lost n h small = elim (room_cases (length (x ∷ q)) small) [
  | inl room ↦
      restate
        (deliver_all-oldest chip ps (x ∷ q ++ (p ∷ [])) lost (deliver chip p n).0
          (deliver_room chip true p (x ∷ q) lost n h room)
          (omega (arith, length-append q (p ∷ []))))
        (ap (λ l. drop (excess l) l) (snoc-append (x ∷ q) ps p))
        (ap (λ l. lost + excess l) (snoc-append (x ∷ q) ps p))
  | inr full ↦
      let long : queue_slots ≤ length (q ++ (p ∷ ps)) =
        omega (arith, length-append q (p ∷ ps), full) in
      restate
        (deliver_all-oldest chip ps (q ++ (p ∷ [])) (lost + 1) (deliver chip p n).0
          (deliver_oldest chip p x q lost n h full) (omega (arith, length-append q (p ∷ []), full)))
        (ap (λ l. drop (excess l) l) (snoc-append q ps p) ∙ drop-excess x (q ++ (p ∷ ps)) long)
        (ap (λ l. lost + 1 + excess l) (snoc-append q ps p) ∙ omega (arith, long))
]
