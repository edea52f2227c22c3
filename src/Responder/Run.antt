-- ===== src/Responder/Run.antt =====
-- A responder that is locked onto an initiator, seen through what the initiator's packets change.
use esp_csi_rs.Base.{
  ℕ, ◌+◌, ◌-◌, min, ◌≡◌, refl, sym, ap, ◌∙◌, if-true, if-false, Bool-cases, Option-cases, inl, inr,
  Bool, true, false, not, ◌&&◌, ◌||◌, Option, none, some, List, [], ◌∷◌, if◌then◌else◌, ◌==◌,
  is_some, subst,
}
use esp_csi_rs.Mac.{Mac, mac_eq}
use esp_csi_rs.Model.{host_reporting}
use esp_csi_rs.EspNow.{EspNowConfig, EspNowDriver}
use esp_csi_rs.Protocol.{ControlPacket, initiator_magic_number, parse_with_magic}
use esp_csi_rs.Session.{set_sounding_instance}
use esp_csi_rs.Delivery.{Delivery, set_runtime_reporting}
use esp_csi_rs.Pool.{PoolFrame, data_of}
use esp_csi_rs.Responder.{
  Responder, u64_to_mac, fetch_add, add_some, differ, mode_switch_hysteresis, ingest_control_packet,
  ingest_parsed, accept, pair, healthcheck, count_control, follow, count_source_drop,
  count_parse_drop,
}

-- What depends on the packets of the locked initiator alone.
pub record View : Type 0 where
  pub reports : Bool
  pub silent : Bool
  pub streak : ℕ
  pub delivery : Delivery
  pub initialized : Bool
  pub last : ℕ
  pub heard_count : ℕ
  pub missed_count : ℕ

abbrev pub view : {D : Type 0} → Responder D → View
view r = record {
  reports = r.shared.reports;
  silent = r.shared.last_initiator_silent;
  streak = r.shared.mode_streak;
  delivery = r.delivery;
  initialized = r.shared.sequence_initialized;
  last = r.shared.last_control_sequence;
  heard_count = r.diagnostics.rx_control_packet_count;
  missed_count = r.diagnostics.rx_sequence_miss_count;
}

-- Whether a packet that is `silent` promotes the node.
abbrev pub promotes : Bool → View → Bool
promotes silent v =
    ((not (differ silent v.silent) && min (v.streak + 1) 255 == mode_switch_hysteresis) && silent)
    && not v.reports

abbrev pub view_follow : Bool → View → View
view_follow silent v = record v {
  reports = promotes silent v || v.reports;
  silent = silent;
  streak = if differ silent v.silent then 1 else min (v.streak + 1) 255;
  delivery =
      if promotes silent v then set_runtime_reporting host_reporting v.delivery else v.delivery;
}

abbrev pub view_count : ℕ → View → View
view_count n v = record v {
  initialized = true;
  last = n;
  heard_count = fetch_add v.heard_count 1;
  missed_count = add_some v.missed_count (if v.initialized then n - v.last - 1 else 0);
}

abbrev pub view_step : ControlPacket → View → View
view_step p v = view_follow (not p.initiator_reports) (view_count p.sequence_number v)

abbrev pub view_frame : Option ControlPacket → View → View
view_frame none v = v
view_frame (some p) v = view_step p v

abbrev pub view_all : List ControlPacket → View → View
view_all [] v = v
view_all (p ∷ ps) v = view_all ps (view_step p v)

-- Locked onto an initiator, and listening.
pub record IsLocked {D : Type 0} (m : Mac) (r : Responder D) : Type 0 where
  pub listening : r.raw_listen ≡ false
  pub connected : r.shared.is_connected ≡ true
  pub initiator : u64_to_mac r.shared.initiator_mac ≡ m

module _ {D : Type 0} (api : EspNowDriver D) (c5 has_ax : Bool) (config : EspNowConfig)
    (take_from_bytes : List ℕ → Option (ControlPacket × List ℕ)) where
  pair-view :
      (tx_enabled was_connected : Bool) (src : Mac) (r : Responder D)
      → was_connected ≡ true
      → view (pair api c5 has_ax config tx_enabled was_connected src r) ≡ view r
  unfolding pair healthcheck
  pair-view true true src r e = refl
  pair-view true false src r e = absurd cc
  pair-view false was_connected src r e = refl

  pair-IsLocked :
      (tx_enabled was_connected : Bool) (m src : Mac) (r : Responder D)
      → was_connected ≡ true
      → IsLocked m r
      → IsLocked m (pair api c5 has_ax config tx_enabled was_connected src r)
  unfolding pair healthcheck
  pair-IsLocked true true m src r e h = record {
    listening = h.listening;
    connected = h.connected;
    initiator = h.initiator;
  }
  pair-IsLocked true false m src r e h = absurd cc
  pair-IsLocked false was_connected m src r e h = h

  abbrev parsed : PoolFrame → Option ControlPacket
  parsed f =
      parse_with_magic take_from_bytes (data_of f) initiator_magic_number
        (not (is_some config.peer_mac))

  -- The frame's packet, if `m` sent it.
  abbrev pub packet_from : Mac → PoolFrame → Option ControlPacket
  packet_from m f = if mac_eq m f.info.src_address then parsed f else none

  -- The packets of `m` among the frames.
  unfoldable pub packets_from : Mac → List PoolFrame → List ControlPacket
  packets_from m [] = []
  packets_from m (f ∷ fs) =
      let rest = packets_from m fs in elim (packet_from m f) [ none ↦ rest | some p ↦ p ∷ rest ]

  unfoldable pub ingest_all : Bool → List PoolFrame → Responder D → Responder D
  unfolding ingest_control_packet
  ingest_all tx_enabled [] r = r
  ingest_all tx_enabled (f ∷ fs) r =
      ingest_all tx_enabled fs
        (ingest_control_packet api c5 has_ax config take_from_bytes tx_enabled f r)

  -- A packet of the initiator, and the lock, which it does not change.
  accept-view :
      (tx_enabled : Bool) (m src : Mac) (p : ControlPacket) (r : Responder D)
      → IsLocked m r
      → view (accept api c5 has_ax config tx_enabled src p r) ≡ view_step p (view r)
  unfolding accept count_control follow
  accept-view tx_enabled m src p r h =
      ap (view_follow (not p.initiator_reports)) (pair-view tx_enabled _ src _ h.connected)

  accept-IsLocked :
      (tx_enabled : Bool) (m src : Mac) (p : ControlPacket) (r : Responder D)
      → IsLocked m r
      → IsLocked m (accept api c5 has_ax config tx_enabled src p r)
  unfolding accept count_control follow
  accept-IsLocked tx_enabled m src p r h =
      let start : IsLocked m (
          count_control p.sequence_number
            (record r { session = set_sounding_instance p.sequence_number r.session })) =
        record { listening = h.listening; connected = h.connected; initiator = h.initiator } in
      let paired : IsLocked m _ =
        pair-IsLocked tx_enabled r.shared.is_connected m src _ h.connected start in
      record {
        listening = paired.listening;
        connected = paired.connected;
        initiator = paired.initiator;
      }

  drop-IsLocked :
      (expect : Bool) (m : Mac) (r : Responder D)
      → IsLocked m r
      → IsLocked m (count_parse_drop expect r)
  drop-IsLocked expect m r h = record {
    listening = h.listening;
    connected = h.connected;
    initiator = h.initiator;
  }

  source-IsLocked : (m : Mac) (r : Responder D) → IsLocked m r → IsLocked m (count_source_drop r)
  source-IsLocked m r h = record {
    listening = h.listening;
    connected = h.connected;
    initiator = h.initiator;
  }

  -- The test on the source, of a locked responder.
  own_source :
      (m src : Mac) (b : Bool) (r : Responder D)
      → IsLocked m r
      → mac_eq m src ≡ b
      → (r.shared.is_connected && not (mac_eq (u64_to_mac r.shared.initiator_mac) src)) ≡ not b
  own_source m src b r h e = rw (h.connected, h.initiator, e) refl

  foreign-ingest :
      (tx_enabled : Bool) (m : Mac) (f : PoolFrame) (r : Responder D)
      → IsLocked m r
      → mac_eq m f.info.src_address ≡ false
      → ingest_control_packet api c5 has_ax config take_from_bytes tx_enabled f r
        ≡ count_source_drop r
  unfolding ingest_control_packet
  foreign-ingest tx_enabled m f r h e =
      if-false _ _ h.listening ∙ if-true _ _ (own_source m f.info.src_address false r h e)

  own-ingest :
      (tx_enabled : Bool) (m : Mac) (f : PoolFrame) (r : Responder D)
      → IsLocked m r
      → mac_eq m f.info.src_address ≡ true
      → ingest_control_packet api c5 has_ax config take_from_bytes tx_enabled f r
        ≡ ingest_parsed api c5 has_ax config tx_enabled f.info.src_address (parsed f) r
  unfolding ingest_control_packet
  own-ingest tx_enabled m f r h e =
      if-false _ _ h.listening ∙ if-false _ _ (own_source m f.info.src_address true r h e)

  parsed-view :
      (tx_enabled : Bool) (m src : Mac) (o : Option ControlPacket) (r : Responder D)
      → IsLocked m r
      → view (ingest_parsed api c5 has_ax config tx_enabled src o r) ≡ view_frame o (view r)
  unfolding ingest_parsed
  parsed-view tx_enabled m src none r h = refl
  parsed-view tx_enabled m src (some p) r h = accept-view tx_enabled m src p r h

  parsed-IsLocked :
      (tx_enabled : Bool) (m src : Mac) (o : Option ControlPacket) (r : Responder D)
      → IsLocked m r
      → IsLocked m (ingest_parsed api c5 has_ax config tx_enabled src o r)
  unfolding ingest_parsed
  parsed-IsLocked tx_enabled m src none r h = drop-IsLocked (not (is_some config.peer_mac)) m r h
  parsed-IsLocked tx_enabled m src (some p) r h = accept-IsLocked tx_enabled m src p r h

  -- One frame, whoever sent it.
  pub ingest-view :
      (tx_enabled : Bool) (m : Mac) (f : PoolFrame) (r : Responder D)
      → IsLocked m r
      → view (ingest_control_packet api c5 has_ax config take_from_bytes tx_enabled f r)
        ≡ view_frame (packet_from m f) (view r)
  ingest-view tx_enabled m f r h = elim (Bool-cases (mac_eq m f.info.src_address)) [
    | inl own ↦
        ap view (own-ingest tx_enabled m f r h own)
        ∙ (parsed-view tx_enabled m f.info.src_address (parsed f) r h
            ∙ ap (λ o. view_frame o (view r)) (sym (if-true _ _ own)))
    | inr other ↦
        ap view (foreign-ingest tx_enabled m f r h other)
        ∙ ap (λ o. view_frame o (view r)) (sym (if-false _ _ other))
  ]

  pub ingest-IsLocked :
      (tx_enabled : Bool) (m : Mac) (f : PoolFrame) (r : Responder D)
      → IsLocked m r
      → IsLocked m (ingest_control_packet api c5 has_ax config take_from_bytes tx_enabled f r)
  ingest-IsLocked tx_enabled m f r h = elim (Bool-cases (mac_eq m f.info.src_address)) [
    | inl own ↦
        subst (λ t. IsLocked m t) (sym (own-ingest tx_enabled m f r h own))
          (parsed-IsLocked tx_enabled m f.info.src_address (parsed f) r h)
    | inr other ↦
        subst (λ t. IsLocked m t) (sym (foreign-ingest tx_enabled m f r h other))
          (source-IsLocked m r h)
  ]

  packets_from-step :
      (m : Mac) (f : PoolFrame) (fs : List PoolFrame) (v : View)
      → view_all (packets_from m (f ∷ fs)) v
        ≡ view_all (packets_from m fs) (view_frame (packet_from m f) v)
  unfolding packets_from
  packets_from-step m f fs v = elim (Option-cases (packet_from m f)) [
    | inl e ↦ rw (packets_from, e) refl
    | inr e ↦ rw (packets_from, e.1) refl
  ]

  -- A locked responder stays locked, and any frames do to it what the initiator's packets do.
  pub ingest_all-view :
      (tx_enabled : Bool) (m : Mac) (fs : List PoolFrame) (r : Responder D)
      → IsLocked m r
      → (view (ingest_all tx_enabled fs r) ≡ view_all (packets_from m fs) (view r))
        × IsLocked m (ingest_all tx_enabled fs r)
  unfolding ingest_all packets_from
  ingest_all-view tx_enabled m [] r h = (refl, h)
  ingest_all-view tx_enabled m (f ∷ fs) r h =
      let (sees, locked) = ingest_all-view tx_enabled m fs _ (ingest-IsLocked tx_enabled m f r h) in
      (
        sees
            ∙ (ap (view_all (packets_from m fs)) (ingest-view tx_enabled m f r h)
                ∙ sym (packets_from-step m f fs (view r))),
        locked,
      )
