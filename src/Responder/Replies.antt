-- ===== src/Responder/Replies.antt =====
-- How many replies a locked responder sends, and to whom.
use esp_csi_rs.Base.{
  ℕ, suc, ◌+◌, ◌^◌, ◌≤◌, ◌<◌, ◌≡◌, refl, ap, ◌⊎◌, inl, inr, Bool-cases, Option-cases, Bool, true,
  false, ◌&&◌, Option, none, some, List, [], ◌∷◌, if◌then◌else◌, leb, length, length-append,
  All-append, All, arith,
}
use esp_csi_rs.Mac.{Mac}
use esp_csi_rs.EspNow.{EspNowConfig, EspNowDriver, IoTaskConfig}
use esp_csi_rs.Protocol.{ControlPacket}
use esp_csi_rs.Pool.{Pool, PoolFrame, receive}
use esp_csi_rs.Responder.{
  Responder, fetch_add, unicast_replies, broadcast_address, reply_destination,
  ingest_control_packet, ingest_parsed, accept, pair, lock_on, healthcheck, count_control, follow,
}
use esp_csi_rs.Responder.Run.{IsLocked, ingest-IsLocked}
use esp_csi_rs.Responder.Loop.{
  Task, Reply, beacon, reply_pending, ingest_from, rx_burst, tx_burst, take_pending, after_send,
  arrived, pass, run,
}
use esp_csi_rs.Pacing.{Turn, is_sent}

-- Replies owed, and control packets heard.
abbrev flag : Bool → ℕ
flag b = if b then 1 else 0

abbrev pub owed : {D : Type 0} → Task D → ℕ
owed t = flag t.responder.shared.pending_flag

abbrev pub heard : {D : Type 0} → Task D → ℕ
heard t = t.responder.diagnostics.rx_control_packet_count

module _ {D : Type 0} (api : EspNowDriver D) (c5 has_ax : Bool) (config : EspNowConfig)
    (take_from_bytes : List ℕ → Option (ControlPacket × List ℕ))
    (to_slice : Unit {0} → ℕ → Option (List ℕ)) where
  -- A frame is a control packet that counts, or it leaves the flag alone.
  abbrev Ingests : Responder D → Responder D → Type 0
  Ingests r r' =
      ((r'.diagnostics.rx_control_packet_count ≡ r.diagnostics.rx_control_packet_count)
        × (r'.shared.pending_flag ≡ r.shared.pending_flag))
      ⊎ (r'.diagnostics.rx_control_packet_count ≡ fetch_add r.diagnostics.rx_control_packet_count 1)

  pair-count :
      (tx_enabled was : Bool) (src : Mac) (r : Responder D)
      → (pair api c5 has_ax config tx_enabled was src r).diagnostics.rx_control_packet_count
        ≡ r.diagnostics.rx_control_packet_count
  unfolding pair lock_on healthcheck
  pair-count true true src r = refl
  pair-count true false src r = refl
  pair-count false was src r = refl

  parsed-Ingests :
      (tx_enabled : Bool) (src : Mac) (o : Option ControlPacket) (r : Responder D)
      → Ingests r (ingest_parsed api c5 has_ax config tx_enabled src o r)
  unfolding ingest_parsed accept count_control follow
  parsed-Ingests tx_enabled src none r = inl (refl, refl)
  parsed-Ingests tx_enabled src (some p) r = inr (pair-count tx_enabled r.shared.is_connected src _)

  if-Ingests :
      (b : Bool) (r x y : Responder D) → Ingests r x → Ingests r y → Ingests r (if b then x else y)
  if-Ingests true r x y h k = h
  if-Ingests false r x y h k = k

  ingest-Ingests :
      (tx_enabled : Bool) (f : PoolFrame) (r : Responder D)
      → Ingests r (ingest_control_packet api c5 has_ax config take_from_bytes tx_enabled f r)
  unfolding ingest_control_packet
  ingest-Ingests tx_enabled f r =
      if-Ingests r.raw_listen r _ _ (inl (refl, refl))
        (if-Ingests _ r _ _ (inl (refl, refl)) (parsed-Ingests tx_enabled f.info.src_address _ r))

  -- Where a responder that is locked onto `m` replies to.
  abbrev pub target : Mac → Mac
  target m = if unicast_replies c5 config then m else broadcast_address

  -- Some passes' replies, with at most `n` packets heard.
  pub record Accounts (m : Mac) (n : ℕ) (replies : List Reply) (t t' : Task D) : Type 0 where
    pub paid : length replies + owed t' + heard t ≤ heard t' + owed t
    pub bound : heard t' ≤ heard t + n
    pub locked : IsLocked m t'.responder
    pub addressed : All (λ r. r.dest ≡ target m) replies

  flag_small : (b : Bool) → flag b ≤ 1
  flag_small b = ground arith

  ingest-Accounts :
      (m : Mac) (pool : Pool) (f : PoolFrame) (t : Task D)
      → IsLocked m t.responder
      → heard t + 1 < 2 ^ 64
      → Accounts m 1 [] t (ingest_from api c5 has_ax config take_from_bytes to_slice true pool f t)
  ingest-Accounts m pool f t h small = elim (ingest-Ingests true f t.responder) [
    | inl (count, same) ↦ record {
      paid = omega (arith, count, ap flag same);
      bound = omega (arith, count);
      locked = ingest-IsLocked api c5 has_ax config take_from_bytes true m f t.responder h;
      addressed = tt;
    }
    | inr count ↦ record {
      paid = omega (arith, count, flag_small _);
      bound = omega (arith, count);
      locked = ingest-IsLocked api c5 has_ax config take_from_bytes true m f t.responder h;
      addressed = tt;
    }
  ]

  none-Accounts : (m : Mac) (n : ℕ) (t : Task D) → IsLocked m t.responder → Accounts m n [] t t
  none-Accounts m n t h = record {
    paid = omega arith;
    bound = omega arith;
    locked = h;
    addressed = tt;
  }

  -- The RX burst takes one frame at most.
  rx_burst-Accounts :
      (m : Mac) (turn : Turn) (t : Task D)
      → IsLocked m t.responder
      → heard t + 1 < 2 ^ 64
      → Accounts m 1 [] t (rx_burst api c5 has_ax config take_from_bytes to_slice 1 0 turn t)
  unfolding rx_burst
  rx_burst-Accounts m turn t h small = taken (receive t.pool).1
    where
      taken :
          (o : Option PoolFrame)
          → Accounts m 1 [] t (elim o [
            | none ↦ t
            | some f ↦
                ingest_from api c5 has_ax config take_from_bytes to_slice true
                  (receive t.pool).0
                  f
                  t
          ])
      taken none = none-Accounts m 1 t h
      taken (some f) = ingest-Accounts m (receive t.pool).0 f t h small

  is_owed : (a b c : Bool) → (a && (b && c)) ≡ true → flag c ≡ 1
  is_owed a b c e = ground arith

  to_target :
      (m : Mac) (r : Responder D) → IsLocked m r → reply_destination c5 config r.shared ≡ target m
  unfolding reply_destination
  to_target m r h = ap (λ k. if unicast_replies c5 config then k else broadcast_address) h.initiator

  take_pending-IsLocked :
      (m : Mac) (t : Task D) → IsLocked m t.responder → IsLocked m (take_pending t).responder
  take_pending-IsLocked m t h = record {
    listening = h.listening;
    connected = h.connected;
    initiator = h.initiator;
  }

  -- One reply at most, and only one that is owed.
  tx_burst-Accounts :
      (m : Mac) (adaptive : Bool) (turn : Turn) (t : Task D)
      → IsLocked m t.responder
      → let out = tx_burst api c5 has_ax config take_from_bytes to_slice 1 0 adaptive turn t in
        Accounts m 0 out.1 t out.0
  unfolding tx_burst after_send
  tx_burst-Accounts m adaptive turn t h =
      let due : Bool =
        leb t.pacing.next_tx_us (turn.now_us 0) && reply_pending t.responder.shared in
      elim (Bool-cases due) [
        | inr e ↦ rw (tx_burst, e) (none-Accounts m 0 t h)
        | inl e ↦
            (let was : owed t ≡ 1 =
                is_owed (leb t.pacing.next_tx_us (turn.now_us 0)) t.responder.shared.is_connected
                  t.responder.shared.pending_flag e in
              elim (Option-cases (beacon to_slice config)) [
                | inl o ↦
                    rw (tx_burst, e, o)
                      (record {
                        paid = omega (arith, was);
                        bound = omega arith;
                        locked = take_pending-IsLocked m t h;
                        addressed = tt;
                      })
                | inr o ↦ (elim (Bool-cases (is_sent (turn.result 0))) [
                  | inl b ↦
                      rw (tx_burst, e, o.1, b)
                        (record {
                          paid = omega (arith, was);
                          bound = omega arith;
                          locked = take_pending-IsLocked m t h;
                          addressed = (to_target m t.responder h, tt);
                        })
                  | inr b ↦
                      rw (tx_burst, e, o.1, b)
                        (record {
                          paid = omega (arith, was);
                          bound = omega arith;
                          locked = take_pending-IsLocked m t h;
                          addressed = (to_target m t.responder h, tt);
                        })
                ])
              ])
      ]

  -- One pass of a node that transmits.
  pass-Accounts :
      (m : Mac) (rx_enabled : Bool) (turn : Turn) (t : Task D)
      → IsLocked m t.responder
      → heard t + 1 < 2 ^ 64
      → let io_tasks : IoTaskConfig = record { tx_enabled = true; rx_enabled = rx_enabled } in
        let out = pass api c5 has_ax config take_from_bytes to_slice io_tasks turn t in
        Accounts m 1 out.1 t out.0
  unfolding pass
  pass-Accounts m true turn t h small =
      let rx = rx_burst-Accounts m turn (arrived turn t) h small in
      let tx = tx_burst-Accounts m true turn _ rx.locked in
      record {
        paid = omega (arith, rx.paid, tx.paid);
        bound = omega (arith, rx.bound, tx.bound);
        locked = tx.locked;
        addressed = tx.addressed;
      }
  pass-Accounts m false turn t h small =
      let tx = tx_burst-Accounts m false turn (arrived turn t) h in
      record {
        paid = tx.paid;
        bound = omega (arith, tx.bound);
        locked = tx.locked;
        addressed = tx.addressed;
      }

  if-Accounts :
      (b : Bool) (m : Mac) (n : ℕ) (xs ys : List Reply) (t x y : Task D)
      → Accounts m n xs t x
      → Accounts m n ys t y
      → Accounts m n (if b then xs else ys) t (if b then x else y)
  if-Accounts true m n xs ys t x y h k = h
  if-Accounts false m n xs ys t x y h k = k

  pub run-Accounts :
      (m : Mac) (rx_enabled : Bool) (turns : List Turn) (t : Task D)
      → IsLocked m t.responder
      → heard t + length turns < 2 ^ 64
      → let io_tasks : IoTaskConfig = record { tx_enabled = true; rx_enabled = rx_enabled } in
        let out = run api c5 has_ax config take_from_bytes to_slice io_tasks turns t in
        Accounts m (length turns) out.1 t out.0
  unfolding run
  run-Accounts m rx_enabled [] t h small = none-Accounts m 0 t h
  run-Accounts m rx_enabled (turn ∷ turns) t h small =
      let io_tasks : IoTaskConfig = record { tx_enabled = true; rx_enabled = rx_enabled } in
      let out = pass api c5 has_ax config take_from_bytes to_slice io_tasks turn t in
      let out' = run api c5 has_ax config take_from_bytes to_slice io_tasks turns out.0 in
      let now : Accounts m 1 out.1 t out.0 = pass-Accounts m rx_enabled turn t h (omega arith) in
      let rest : Accounts m (length turns) out'.1 out.0 out'.0 =
        run-Accounts m rx_enabled turns out.0 now.locked (omega (arith, now.bound)) in
      if-Accounts turn.stop m (suc (length turns)) _ _ t _ _
        (record {
          paid = now.paid;
          bound = omega (arith, now.bound);
          locked = now.locked;
          addressed = now.addressed;
        })
        (record {
          paid = omega (arith, now.paid, rest.paid, length-append out.1 out'.1);
          bound = omega (arith, now.bound, rest.bound);
          locked = rest.locked;
          addressed = All-append _ _ _ now.addressed rest.addressed;
        })

  -- A locked responder that transmits, over any passes of its loop before its count of heard
  -- packets wraps: it hands the driver at most as many replies as control packets it has heard
  -- since, and one more if a reply was already owed; and all of them go to the initiator where
  -- replies are unicast, else to the broadcast address.
  pub run-replies :
      (m : Mac) (rx_enabled : Bool) (turns : List Turn) (t : Task D)
      → IsLocked m t.responder
      → heard t + length turns < 2 ^ 64
      → let io_tasks : IoTaskConfig = record { tx_enabled = true; rx_enabled = rx_enabled } in
        let out = run api c5 has_ax config take_from_bytes to_slice io_tasks turns t in
        (length out.1 + heard t ≤ heard out.0 + owed t)
        × All (λ (r : Reply). r.dest ≡ target m) out.1
  run-replies m rx_enabled turns t h small =
      let all' = run-Accounts m rx_enabled turns t h small in
      (omega (arith, all'.paid), all'.addressed)
