-- ===== src/Log/Streams.antt =====
-- The backend's rounds in `LogMode::Serialized`, between the packets and the messages that arrive.
use esp_csi_rs.Base.{
  ℕ, ◌+◌, ◌≢◌, ◌≡◌, refl, sym, ap, ◌∙◌, Bool, true, false, Option, some, List, [], ◌∷◌, ◌++◌,
  if◌then◌else◌, length, drop, length-append, append_nil, All, arith, ltb,
}
use mathlib.Core.List.{append_assoc}
use esp_csi_rs.Wire.{Body, Envelope}
use esp_csi_rs.Packet.{CsiPacket}
use esp_csi_rs.Config.{Build}
use esp_csi_rs.Log.{
  Backend, Log, LogMode, log_csi, log_text, record_log_drop, csi_log_channel_capacity,
  text_log_channel_capacity,
}
use esp_csi_rs.Log.Frames.{frames_from, Cobs, IsBody, Sends-none, host_frames}
use esp_csi_rs.Log.Rounds.{
  Event, Served, queued, queued_text, is_empty, step, steps, and_run, round_frames, sent,
  serve_round,
}

kept :
    {A : Type 0} (f : Log → A) (t : Bool) (x y : Log) (v : A)
    → f x ≡ v
    → f y ≡ v
    → f (if t then x else y) ≡ v
kept f true x y v p q = p
kept f false x y v p q = q

if_field :
    {A : Type 0} (f : Log → A) (t : Bool) (x y : Log)
    → f (if t then x else y) ≡ (if t then f x else f y)
if_field f true x y = refl
if_field f false x y = refl

log_csi-Served :
    (p : CsiPacket) (ps : List CsiPacket) (ms : List (List ℕ)) (b : Backend)
    → b.log.log_mode ≡ LogMode.serialized
    → b.log.csi_channel ≡ ps
    → b.log.text_channel ≡ ms
    → b.console.answers ≡ []
    → Served b
        (some (record b { log = log_csi p b.log }))
        []
        (queued csi_log_channel_capacity ps p)
        ms
unfolding log_csi
log_csi-Served p ps ms b mode csi text ready =
    let t : Bool = ltb (length b.log.csi_channel) csi_log_channel_capacity in
    let put : Log = record b.log { csi_channel = b.log.csi_channel ++ (p ∷ []) } in
    let lost : Log = record_log_drop b.log in
    record {
      after = record b { log = log_csi p b.log };
      result = refl;
      log = log_csi p b.log;
      sends = Sends-none (record b { log = log_csi p b.log }) ready;
      mode = kept (λ l. l.log_mode) t put lost LogMode.serialized mode mode;
      packets =
          if_field (λ l. l.csi_channel) t put lost
          ∙ ap (λ k. queued csi_log_channel_capacity k p) csi;
      messages = kept (λ l. l.text_channel) t put lost ms text text;
    }

log_text-Served :
    (m : List ℕ) (ps : List CsiPacket) (ms : List (List ℕ)) (b : Backend)
    → b.log.log_mode ≡ LogMode.serialized
    → b.log.csi_channel ≡ ps
    → b.log.text_channel ≡ ms
    → b.console.answers ≡ []
    → Served b (some (record b { log = log_text m b.log })) [] ps (queued_text ms m)
unfolding log_text
log_text-Served m ps ms b mode csi text ready =
    let long : Bool = ltb 256 (length m + 2) in
    let t : Bool = ltb (length b.log.text_channel) text_log_channel_capacity in
    let put : Log = record b.log {
      text_channel = b.log.text_channel ++ ((m ++ (13 ∷ 10 ∷ [])) ∷ []);
    } in
    let queue : Log = if t then put else b.log in
    record {
      after = record b { log = log_text m b.log };
      result = refl;
      log = log_text m b.log;
      sends = Sends-none (record b { log = log_text m b.log }) ready;
      mode =
          kept (λ l. l.log_mode) long b.log queue LogMode.serialized mode
            (kept (λ l. l.log_mode) t put b.log LogMode.serialized mode mode);
      packets =
          kept (λ l. l.csi_channel) long b.log queue ps csi
            (kept (λ l. l.csi_channel) t put b.log ps csi csi);
      messages =
          if_field (λ l. l.text_channel) long b.log queue
          ∙ (ap (λ k. if long then b.log.text_channel else k)
                (if_field (λ l. l.text_channel) t put b.log)
              ∙ ap (λ k. queued_text k m) text);
    }

-- A logged message has no delimiter.
abbrev pub IsText : Event → Type 0
IsText (Event.message m) = All (λ (c : ℕ). c ≢ 0) m
IsText _ = Unit {0}

All-append : {A : Type 0} (P : A → Type 0) (xs ys : List A) → All P xs → All P ys → All P (xs ++ ys)
All-append P [] ys p q = q
All-append P (x ∷ xs) ys p q = (p.0, All-append P xs ys p.1 q)

All-drop : {A : Type 0} (P : A → Type 0) (xs : List A) → All P xs → All P (drop 1 xs)
All-drop P [] p = p
All-drop P (x ∷ xs) p = p.1

line-IsBody : (m : List ℕ) → All (λ (c : ℕ). c ≢ 0) m → IsBody (m ++ (13 ∷ 10 ∷ []))
line-IsBody m free = (
  omega (arith, length-append m (13 ∷ 10 ∷ [])),
  All-append (λ (c : ℕ). c ≢ 0) m (13 ∷ 10 ∷ []) free
      (λ (e : 13 ≡ 0). omega arith, (λ (e : 10 ≡ 0). omega arith, tt)),
)

All-if :
    {A : Type 0} (P : A → Type 0) (t : Bool) (xs ys : List A)
    → All P xs
    → All P ys
    → All P (if t then xs else ys)
All-if P true xs ys p q = p
All-if P false xs ys p q = q

queued_text-IsBody :
    (ms : List (List ℕ)) (m : List ℕ)
    → All (λ (c : ℕ). c ≢ 0) m
    → All IsBody ms
    → All IsBody (queued_text ms m)
queued_text-IsBody ms m free ok =
    let line : List (List ℕ) = (m ++ (13 ∷ 10 ∷ [])) ∷ [] in
    let t : Bool = ltb (length ms) text_log_channel_capacity in
    All-if IsBody (ltb 256 (length m + 2)) ms (if t then ms ++ line else ms) ok
      (All-if IsBody t (ms ++ line) ms (All-append IsBody ms line ok (line-IsBody m free, tt)) ok)

module _ (build : Build) (encode_cobs : Envelope → Body → Option (List ℕ))
    (cobs : (e : Envelope) (x : Body) (f : List ℕ) → encode_cobs e x ≡ some f → Cobs f) where
  -- A run that starts with empty queues and sends `fs`.
  abbrev Streams : List Event → Backend → List (List ℕ) → Type 0
  Streams es b fs =
      (b' : Backend) × (bytes : List ℕ) × (steps build encode_cobs es b ≡ some b')
      × (b'.console.link ≡ b.console.link ++ bytes)
      × ((rest : List ℕ) → host_frames (bytes ++ rest) ≡ fs ++ host_frames rest)

  -- The backend streams, with these queues, and the console takes all bytes.
  abbrev Ready : Backend → List CsiPacket → List (List ℕ) → Type 0
  Ready b ps ms =
      (b.log.log_mode ≡ LogMode.serialized)
      × (b.log.csi_channel ≡ ps)
      × (b.log.text_channel ≡ ms)
      × (b.console.answers ≡ [])

  -- A step, and what follows it.
  extend :
      (e : Event) (es : List Event) (b : Backend) (fs gs : List (List ℕ)) (ps : List CsiPacket)
      (ms : List (List ℕ))
      → (s : Served b (step build encode_cobs e b) fs ps ms)
      → ((b' : Backend) → Ready b' ps ms → Streams es b' gs)
      → Streams (e ∷ es) b (fs ++ gs)
  unfolding steps
  extend e es b fs gs ps ms s next =
      let l = s.sends.log in
      let r : Streams es s.after gs = next s.after (
        ap (λ k. k.log_mode) l ∙ s.mode,
        ap (λ k. k.csi_channel) l ∙ s.packets,
        ap (λ k. k.text_channel) l ∙ s.messages,
        s.sends.ready,
      ) in
      (
        r.0,
        s.sends.bytes ++ r.1,
        ap (λ o. and_run build encode_cobs o (steps build encode_cobs es)) s.result ∙ r.2,
        r.3 ∙ (ap (λ l. l ++ r.1) s.sends.link ∙ append_assoc b.console.link s.sends.bytes r.1),
        λ rest.
            ap host_frames (append_assoc s.sends.bytes r.1 rest)
            ∙ (s.sends.frames (r.1 ++ rest)
                ∙ (ap (λ l. fs ++ l) (r.4 rest) ∙ sym (append_assoc fs gs (host_frames rest)))),
      )

  round-IsBody :
      (ps : List CsiPacket) (ms : List (List ℕ))
      → All IsBody ms
      → All IsBody (if is_empty ps then drop 1 ms else [])
  round-IsBody [] ms ok = All-drop IsBody ms ok
  round-IsBody (p ∷ ps) ms ok = tt

  steps-Streams :
      (es : List Event) (ps : List CsiPacket) (ms : List (List ℕ)) (b : Backend)
      → All IsText es
      → All IsBody ms
      → Ready b ps ms
      → Streams es b (sent build encode_cobs es ps ms)
  unfolding steps step
  steps-Streams [] ps ms b texts ok r = (b, [], refl, sym (append_nil b.console.link), λ rest. refl)
  steps-Streams (Event.packet p ∷ es) ps ms b texts ok r =
      let qs : List CsiPacket = queued csi_log_channel_capacity ps p in
      extend (Event.packet p) es b [] (sent build encode_cobs es qs ms) qs ms
        (log_csi-Served p ps ms b r.0 r.1 r.2 r.3)
        (λ b' r'. steps-Streams es qs ms b' texts.1 ok r')
  steps-Streams (Event.message m ∷ es) ps ms b texts ok r =
      extend (Event.message m) es b [] (sent build encode_cobs es ps (queued_text ms m)) ps
        (queued_text ms m) (log_text-Served m ps ms b r.0 r.1 r.2 r.3)
        (λ b' r'.
          steps-Streams es ps (queued_text ms m) b' texts.1 (queued_text-IsBody ms m texts.0 ok) r')
  steps-Streams (Event.round ∷ es) ps ms b texts ok r =
      let left : List (List ℕ) = if is_empty ps then drop 1 ms else [] in
      extend Event.round es b (round_frames build encode_cobs ps ms)
        (sent build encode_cobs es (drop 1 ps) left) (drop 1 ps) left
        (serve_round build encode_cobs cobs ps ms b r.0 r.1 r.2 ok r.3)
        (λ b' r'. steps-Streams es (drop 1 ps) left b' texts.1 (round-IsBody ps ms ok) r')

-- In serialized mode, on an empty console that takes all bytes, if `encode_cobs` gives bytes
-- without a delimiter and the delimiter, and no logged message and no queued one has a delimiter
-- inside, each with a byte: whatever packets and messages are logged between the rounds of the
-- backend, it does not panic, and the frames that a host splits from the console are exactly
-- those of the packets and the messages that the queues took, in the order of the rounds.
pub steps-host_frames :
    (build : Build) (encode_cobs : Envelope → Body → Option (List ℕ)) (es : List Event)
    (b : Backend)
    → ((e : Envelope) (x : Body) (f : List ℕ) → encode_cobs e x ≡ some f → Cobs f)
    → All IsText es
    → All IsBody b.log.text_channel
    → b.log.log_mode ≡ LogMode.serialized
    → b.console.link ≡ []
    → b.console.answers ≡ []
    → (b' : Backend) × (steps build encode_cobs es b ≡ some b')
      × (host_frames b'.console.link
          ≡ sent build encode_cobs es b.log.csi_channel b.log.text_channel)
unfolding frames_from
steps-host_frames build encode_cobs es b cobs texts ok mode link ready =
    let ps : List CsiPacket = b.log.csi_channel in
    let ms : List (List ℕ) = b.log.text_channel in
    let r = steps-Streams build encode_cobs cobs es ps ms b texts ok (mode, refl, refl, ready) in
    (
      r.0,
      r.2,
      ap host_frames (r.3 ∙ (ap (λ l. l ++ r.1) link ∙ sym (append_nil r.1)))
          ∙ (r.4 [] ∙ append_nil (sent build encode_cobs es ps ms)),
    )
