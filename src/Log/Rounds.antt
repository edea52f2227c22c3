-- ===== src/Log/Rounds.antt =====
-- A round of the backend in `LogMode::Serialized`.
use esp_csi_rs.Base.{
  ℕ, ◌+◌, ◌≡◌, refl, sym, ap, ◌∙◌, subst, Bool, true, false, Option, none, some, List, [], ◌∷◌,
  ◌++◌, if◌then◌else◌, length, drop, All, ltb,
}
use esp_csi_rs.Wire.{Body, Envelope, SessionInfo}
use esp_csi_rs.Packet.{CsiPacket}
use esp_csi_rs.Config.{Build}
use esp_csi_rs.Log.{
  Backend, Log, LogMode, after_packet, and_also, backend_round, behind_session, packet_in_mode,
  round_on, write_frame, encode_session, serve_message, write_measurement, write_messages,
  write_packet, log_csi, log_text, csi_log_channel_capacity, text_log_channel_capacity,
  write_serialized_packet_async, write_text_framed,
}
use esp_csi_rs.Log.Frames.{
  Cobs, IsBody, Sends, Sends-log, Sends-none, Sends-trans, frames_of, host_frames,
  write_console-Sends, write_messages-Sends, write_text_framed-Sends, write_ready,
}
use esp_csi_rs.Log.Text.{write}

-- What the backend meets: a packet or a message that a caller logs, or a round of its own.
pub data Event : Type 0 where
  packet : CsiPacket → Event
  message : List ℕ → Event
  round : Event

abbrev pub queued : ℕ → {A : Type 0} → List A → A → List A
queued room xs x = if ltb (length xs) room then xs ++ (x ∷ []) else xs

abbrev pub queued_text : List (List ℕ) → List ℕ → List (List ℕ)
queued_text ms m =
    if ltb 256 (length m + 2) then ms else queued text_log_channel_capacity ms (m ++ (13 ∷ 10 ∷ []))

abbrev pub is_empty : {A : Type 0} → List A → Bool
is_empty [] = true
is_empty (x ∷ xs) = false

module _ (build : Build) (encode_cobs : Envelope → Body → Option (List ℕ)) where
  unfoldable pub step : Event → Backend → Option Backend
  step (packet p) b = some (record b { log = log_csi p b.log })
  step (message m) b = some (record b { log = log_text m b.log })
  step round b = backend_round build encode_cobs b

  abbrev pub and_run : Option Backend → (Backend → Option Backend) → Option Backend
  and_run none f = none
  and_run (some b) f = f b

  unfoldable pub steps : List Event → Backend → Option Backend
  unfolding step
  steps [] b = some b
  steps (e ∷ es) b = and_run (step e b) (steps es)

  -- The frames of a packet: the session's where it carries one, then its own.
  abbrev pub packet_frames : CsiPacket → List (List ℕ)
  packet_frames p =
      frames_of (encode_session build encode_cobs p p.session)
      ++ frames_of (encode_cobs p.envelope (Body.csi p.frame))

  -- A round serves one packet and then all messages, or one message.
  abbrev pub round_frames : List CsiPacket → List (List ℕ) → List (List ℕ)
  round_frames [] [] = []
  round_frames [] (m ∷ ms) = m ∷ []
  round_frames (p ∷ ps) ms = packet_frames p ++ ms

  -- The frames that a host is to see, from two queues and what happens.
  abbrev pub sent : List Event → List CsiPacket → List (List ℕ) → List (List ℕ)
  sent [] ps ms = []
  sent (packet p ∷ es) ps ms = sent es (queued csi_log_channel_capacity ps p) ms
  sent (message m ∷ es) ps ms = sent es ps (queued_text ms m)
  sent (round ∷ es) ps ms =
      round_frames ps ms ++ sent es (drop 1 ps) (if is_empty ps then drop 1 ms else [])

-- Where a run of the backend leads, and the frames that it sends.
pub record Served (b : Backend) (o : Option Backend) (fs : List (List ℕ)) (ps : List CsiPacket)
    (ms : List (List ℕ)) : Type 0 where
  pub after : Backend
  pub result : o ≡ some after
  pub log : Log
  pub sends : Sends (record b { log = log }) after fs
  pub mode : log.log_mode ≡ LogMode.serialized
  pub packets : log.csi_channel ≡ ps
  pub messages : log.text_channel ≡ ms

write_frame-Sends :
    (o : Option (List ℕ)) (b : Backend)
    → ((f : List ℕ) → o ≡ some f → Cobs f)
    → b.console.answers ≡ []
    → Sends b (write_frame o b) (frames_of o)
unfolding write
write_frame-Sends none b law ready = Sends-none b ready
write_frame-Sends (some f) b law ready =
    subst (λ o. Sends b o.0 (host_frames f)) (sym (write_ready f b ready))
      (write_console-Sends f b (law f refl) ready)

module _ (build : Build) (encode_cobs : Envelope → Body → Option (List ℕ))
    (cobs : (e : Envelope) (x : Body) (f : List ℕ) → encode_cobs e x ≡ some f → Cobs f) where
  behind_session-Sends :
      (o : Option (List ℕ)) (p : CsiPacket) (b : Backend)
      → ((f : List ℕ) → o ≡ some f → Cobs f)
      → b.console.answers ≡ []
      → Sends b
          (behind_session build encode_cobs o p b)
          (frames_of o ++ frames_of (encode_cobs p.envelope (Body.csi p.frame)))
  unfolding write
  behind_session-Sends none p b law ready =
      write_frame-Sends (encode_cobs p.envelope (Body.csi p.frame)) b
        (cobs p.envelope (Body.csi p.frame)) ready
  behind_session-Sends (some f) p b law ready =
      let b1 : Backend = record b {
        console = record { link = b.console.link ++ f; answers = [] };
      } in
      subst
        (λ o. Sends b o (host_frames f ++ frames_of (encode_cobs p.envelope (Body.csi p.frame))))
        (sym (ap (λ o. and_also o (write_measurement build encode_cobs p)) (write_ready f b ready)))
        (Sends-trans b b1 (write_measurement build encode_cobs p b1) (host_frames f)
          (frames_of (encode_cobs p.envelope (Body.csi p.frame)))
          (write_console-Sends f b (law f refl) ready)
          (write_frame-Sends (encode_cobs p.envelope (Body.csi p.frame)) b1
            (cobs p.envelope (Body.csi p.frame)) refl))

  session_law :
      (p : CsiPacket) (s : Option SessionInfo) (f : List ℕ)
      → encode_session build encode_cobs p s ≡ some f
      → Cobs f
  session_law p none f e = cc
  session_law p (some info) f e = cobs p.envelope (Body.session info) f e

  write_packet-Sends :
      (p : CsiPacket) (b : Backend)
      → b.log.log_mode ≡ LogMode.serialized
      → b.console.answers ≡ []
      → (b' : Backend) × (write_packet build encode_cobs p b ≡ some b')
        × Sends b b' (packet_frames build encode_cobs p)
  unfolding write_packet write_serialized_packet_async
  write_packet-Sends p b mode ready =
      let s : Option (List ℕ) = encode_session build encode_cobs p p.session in
      (
        behind_session build encode_cobs s p b,
        ap (λ m. packet_in_mode build encode_cobs m p b) mode,
        behind_session-Sends s p b (session_law p p.session) ready,
      )

  serve_packet :
      (p : CsiPacket) (ps : List CsiPacket) (ms : List (List ℕ)) (b : Backend)
      → b.log.log_mode ≡ LogMode.serialized
      → b.log.text_channel ≡ ms
      → All IsBody ms
      → b.console.answers ≡ []
      → Served b
          (round_on build encode_cobs (p ∷ ps) b)
          (packet_frames build encode_cobs p ++ ms)
          ps
          []
  serve_packet p ps ms b mode text ok ready =
      let taken : Backend = record b { log = record b.log { csi_channel = ps } } in
      let w = write_packet-Sends p taken mode ready in
      let b1 : Backend = w.0 in
      let l : Log = record b.log { csi_channel = ps; text_channel = [] } in
      let b2 : Backend = record b1 { log = l } in
      record {
        after = write_messages ms b2;
        result =
            ap after_packet w.1
            ∙ ap some (
                ap
                  (λ k.
                    write_messages k.text_channel
                      (record b1 { log = record k { text_channel = [] } }))
                  w.2.log
                ∙ ap (λ k. write_messages k b2) text);
        log = l;
        sends =
            Sends-trans (record b { log = l }) b2 (write_messages ms b2)
              (packet_frames build encode_cobs p) ms
              (Sends-log l taken b1 (packet_frames build encode_cobs p) w.2)
              (write_messages-Sends ms b2 mode ok w.2.ready);
        mode = mode;
        packets = refl;
        messages = refl;
      }

  serve_messages :
      (ms : List (List ℕ)) (b : Backend)
      → b.log.log_mode ≡ LogMode.serialized
      → b.log.csi_channel ≡ []
      → b.log.text_channel ≡ ms
      → All IsBody ms
      → b.console.answers ≡ []
      → Served b
          (round_on build encode_cobs [] b)
          (round_frames build encode_cobs [] ms)
          []
          (drop 1 ms)
  serve_messages [] b mode csi text ok ready = record {
    after = b;
    result = ap (λ k. some (serve_message k b)) text;
    log = b.log;
    sends = Sends-none b ready;
    mode = mode;
    packets = csi;
    messages = text;
  }
  serve_messages (m ∷ ms) b mode csi text ok ready =
      let l : Log = record b.log { text_channel = ms } in
      record {
        after = write_text_framed m (record b { log = l });
        result = ap (λ k. some (serve_message k b)) text;
        log = l;
        sends = write_text_framed-Sends m (record b { log = l }) mode ok.0 ready;
        mode = mode;
        packets = csi;
        messages = refl;
      }

  pub serve_round :
      (ps : List CsiPacket) (ms : List (List ℕ)) (b : Backend)
      → b.log.log_mode ≡ LogMode.serialized
      → b.log.csi_channel ≡ ps
      → b.log.text_channel ≡ ms
      → All IsBody ms
      → b.console.answers ≡ []
      → Served b
          (backend_round build encode_cobs b)
          (round_frames build encode_cobs ps ms)
          (drop 1 ps)
          (if is_empty ps then drop 1 ms else [])
  unfolding backend_round
  serve_round [] ms b mode csi text ok ready =
      subst
        (λ k.
          Served b (round_on build encode_cobs k b) (round_frames build encode_cobs [] ms) []
            (drop 1 ms))
        (sym csi) (serve_messages ms b mode csi text ok ready)
  serve_round (p ∷ ps) ms b mode csi text ok ready =
      subst
        (λ k.
          Served b (round_on build encode_cobs k b) (packet_frames build encode_cobs p ++ ms) ps [])
        (sym csi) (serve_packet p ps ms b mode text ok ready)
