-- ===== src/Log/Frames.antt =====
-- What a host reads from the console in `LogMode::Serialized`.
use esp_csi_rs.Base.{
  ℕ, ◌≤◌, ◌≢◌, ◌≡◌, refl, sym, ap, ◌∙◌, subst, true, Option, none, some, List, [], ◌∷◌, ◌++◌, ◌==◌,
  if◌then◌else◌, if-false, length, append_nil, All, arith,
}
use mathlib.Core.List.{append_assoc}
use esp_csi_rs.Log.{
  Backend, Log, LogMode, text_in_mode, write_console, write_messages, write_text_framed,
}
use esp_csi_rs.Log.Text.{on_answers, write}

-- A frame ends at a delimiter; the host skips empty ones.
abbrev pub close : List ℕ → List (List ℕ) → List (List ℕ)
close [] frames = frames
close (c ∷ held) frames = (c ∷ held) ∷ frames

-- The frames of a stream, behind the bytes of the open one.
unfoldable pub frames_from : List ℕ → List ℕ → List (List ℕ)
frames_from held [] = []
frames_from held (c ∷ s) =
    if c == 0 then close held (frames_from [] s) else frames_from (held ++ (c ∷ [])) s

abbrev pub host_frames : List ℕ → List (List ℕ)
host_frames s = frames_from [] s

-- A body with some byte, and without a delimiter.
abbrev pub IsBody : List ℕ → Type 0
IsBody s = (1 ≤ length s) × All (λ (c : ℕ). c ≢ 0) s

close_some : (s : List ℕ) (frames : List (List ℕ)) → 1 ≤ length s → close s frames ≡ s ∷ frames
close_some [] frames h = absurd (omega arith)
close_some (c ∷ s) frames h = refl

frames_from-body :
    (held s rest : List ℕ)
    → All (λ (c : ℕ). c ≢ 0) s
    → frames_from held (s ++ (0 ∷ rest)) ≡ close (held ++ s) (frames_from [] rest)
unfolding frames_from
frames_from-body held [] rest free = ap (λ l. close l (frames_from [] rest)) (sym (append_nil held))
frames_from-body held (c ∷ s) rest free =
    if-false {b = c == 0} _ _ (ground (arith, free.0))
    ∙ (frames_from-body (held ++ (c ∷ [])) s rest free.1
        ∙ ap (λ l. close l (frames_from [] rest)) (append_assoc held (c ∷ []) s))

host_frames-body :
    (s rest : List ℕ) → IsBody s → host_frames (s ++ (0 ∷ rest)) ≡ s ∷ host_frames rest
host_frames-body s rest ok =
    frames_from-body [] s rest ok.1 ∙ close_some s (frames_from [] rest) ok.0

-- A way from one state to another that sends the frames `fs`.
pub record Sends (b b' : Backend) (fs : List (List ℕ)) : Type 0 where
  pub log : b'.log ≡ b.log
  pub bytes : List ℕ
  pub link : b'.console.link ≡ b.console.link ++ bytes
  pub ready : b'.console.answers ≡ []
  pub frames : (rest : List ℕ) → host_frames (bytes ++ rest) ≡ fs ++ host_frames rest

pub Sends-none : (b : Backend) → b.console.answers ≡ [] → Sends b b []
Sends-none b ready = record {
  log = refl;
  bytes = [];
  link = sym (append_nil b.console.link);
  ready = ready;
  frames = λ rest. refl;
}

pub Sends-trans :
    (b b' b'' : Backend) (fs gs : List (List ℕ))
    → Sends b b' fs
    → Sends b' b'' gs
    → Sends b b'' (fs ++ gs)
Sends-trans b b' b'' fs gs p q = record {
  log = q.log ∙ p.log;
  bytes = p.bytes ++ q.bytes;
  link = q.link ∙ (ap (λ l. l ++ q.bytes) p.link ∙ append_assoc b.console.link p.bytes q.bytes);
  ready = q.ready;
  frames = λ rest.
      ap host_frames (append_assoc p.bytes q.bytes rest)
      ∙ (p.frames (q.bytes ++ rest)
          ∙ (ap (λ l. fs ++ l) (q.frames rest) ∙ sym (append_assoc fs gs (host_frames rest))));
}

-- A write with no error.
pub write_ready :
    (bytes : List ℕ) (b : Backend)
    → b.console.answers ≡ []
    → write_console bytes b
      ≡ (record b { console = record { link = b.console.link ++ bytes; answers = [] } }, true)
unfolding write
write_ready bytes b ready =
    ap
      (λ a. (
        record b { console = (on_answers a bytes b.console.link).0 },
        (on_answers a bytes b.console.link).1,
      ))
      ready

pub write_body-Sends :
    (s : List ℕ) (b : Backend)
    → IsBody s
    → b.console.answers ≡ []
    → Sends b
        (record b { console = record { link = b.console.link ++ (s ++ (0 ∷ [])); answers = [] } })
        (s ∷ [])
write_body-Sends s b ok ready = record {
  log = refl;
  bytes = s ++ (0 ∷ []);
  link = refl;
  ready = refl;
  frames = λ rest. ap host_frames (append_assoc s (0 ∷ []) rest) ∙ host_frames-body s rest ok;
}

three_writes :
    (s : List ℕ) (b : Backend)
    → b.console.answers ≡ []
    → (write_console (0 ∷ []) (write_console s (write_console (0 ∷ []) b).0).0).0 ≡ record b {
      console = record { link = ((b.console.link ++ (0 ∷ [])) ++ s) ++ (0 ∷ []); answers = [] };
    }
unfolding write
three_writes s b ready =
    ap (λ o. (write_console (0 ∷ []) (write_console s o.0).0).0) (write_ready (0 ∷ []) b ready)

framed_bytes :
    (s rest : List ℕ)
    → IsBody s
    → host_frames (0 ∷ ((s ++ (0 ∷ [])) ++ rest)) ≡ s ∷ host_frames rest
unfolding frames_from
framed_bytes s rest ok = ap host_frames (append_assoc s (0 ∷ []) rest) ∙ host_frames-body s rest ok

pub write_text_framed-Sends :
    (s : List ℕ) (b : Backend)
    → b.log.log_mode ≡ LogMode.serialized
    → IsBody s
    → b.console.answers ≡ []
    → Sends b (write_text_framed s b) (s ∷ [])
unfolding write_text_framed
write_text_framed-Sends s b mode ok ready =
    subst (λ o. Sends b o (s ∷ []))
      (sym (ap (λ m. text_in_mode m s b) mode ∙ three_writes s b ready))
      (record {
        log = refl;
        bytes = 0 ∷ (s ++ (0 ∷ []));
        link = simp append_assoc;
        ready = refl;
        frames = λ rest. framed_bytes s rest ok;
      })

-- A change of the log writes nothing.
pub Sends-log :
    (l : Log) (b b' : Backend) (fs : List (List ℕ))
    → Sends b b' fs
    → Sends (record b { log = l }) (record b' { log = l }) fs
Sends-log l b b' fs p = record {
  log = refl;
  bytes = p.bytes;
  link = p.link;
  ready = p.ready;
  frames = p.frames;
}

pub write_messages-Sends :
    (ms : List (List ℕ)) (b : Backend)
    → b.log.log_mode ≡ LogMode.serialized
    → All IsBody ms
    → b.console.answers ≡ []
    → Sends b (write_messages ms b) ms
unfolding write_messages
write_messages-Sends [] b mode ok ready = Sends-none b ready
write_messages-Sends (m ∷ ms) b mode ok ready =
    let p = write_text_framed-Sends m b mode ok.0 ready in
    Sends-trans b (write_text_framed m b) (write_messages (m ∷ ms) b) (m ∷ []) ms p (
      write_messages-Sends ms (write_text_framed m b) (ap (λ l. l.log_mode) p.log ∙ mode) ok.1
        p.ready)

-- A frame of COBS: bytes without a delimiter, and the delimiter.
pub record Cobs (frame : List ℕ) : Type 0 where
  pub body : List ℕ
  pub shape : frame ≡ body ++ (0 ∷ [])
  pub ok : IsBody body

abbrev pub frames_of : Option (List ℕ) → List (List ℕ)
frames_of none = []
frames_of (some frame) = host_frames frame

host_frames-Cobs : (frame : List ℕ) (c : Cobs frame) → host_frames frame ≡ c.body ∷ []
unfolding frames_from
host_frames-Cobs frame c = ap host_frames c.shape ∙ host_frames-body c.body [] c.ok

pub write_console-Sends :
    (frame : List ℕ) (b : Backend)
    → Cobs frame
    → b.console.answers ≡ []
    → Sends b
        (record b { console = record { link = b.console.link ++ frame; answers = [] } })
        (host_frames frame)
write_console-Sends frame b c ready =
    subst
      (λ fs.
        Sends b (record b { console = record { link = b.console.link ++ frame; answers = [] } }) fs)
      (sym (host_frames-Cobs frame c))
      (subst
        (λ f.
          Sends b (record b { console = record { link = b.console.link ++ f; answers = [] } })
            (c.body ∷ []))
        (sym c.shape) (write_body-Sends c.body b c.ok ready))
