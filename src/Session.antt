-- ===== src/Session.antt =====
-- src/lib/csi/session.rs: the context stamped onto every delivered frame. The process-wide atomics
-- are the fields of one record; each function runs to its end, as the CSI callback does, which is
-- their only writer during a run. The chip's base MAC, the random number and the clock are arguments.
pub mod Timestamp
mod Tests
use esp_csi_rs.Base.{
  ℕ, ◌+◌, ◌-◌, ◌*◌, ◌/◌, ◌%◌, ◌^◌, Bool, true, false, not, ◌&&◌, Option, none, some, List, ◌==◌,
  ltb, if◌then◌else◌, unwrap_or,
}
use esp_csi_rs.Mac.{Mac, pack_mac, unpack_mac}
use esp_csi_rs.Wire.{Chip, SessionInfo, SourceKind, Stimulus, Envelope, new_envelope}

pub record Session : Type 0 where
  pub node_id : ℕ
  pub session_id : ℕ
  pub session_pinned : Bool
  pub epoch_unix_us : ℕ
  pub epoch_at_ticks : ℕ
  pub epoch_set : Bool
  pub stream_seq : ℕ
  pub ts_last_raw : ℕ
  pub ts_wraps : ℕ
  pub anchor_pending : Bool
  pub stimulus_controlled : Bool
  pub setup_id : ℕ
  pub sounding_instance : ℕ
  pub header_digest : Bool

-- The initial values of the statics.
abbrev pub boot : Session
boot = record {
  node_id = 0;
  session_id = 0;
  session_pinned = false;
  epoch_unix_us = 0;
  epoch_at_ticks = 0;
  epoch_set = false;
  stream_seq = 0;
  ts_last_raw = 0;
  ts_wraps = 0;
  anchor_pending = false;
  stimulus_controlled = false;
  setup_id = 0;
  sounding_instance = 0;
  header_digest = false;
}

-- `set_session`, called at `now_us`.
unfoldable pub set_session : ℕ → Option ℕ → ℕ → Session → Session
set_session id epoch now_us s = elim epoch [
  | some us ↦ record s {
    session_id = id;
    session_pinned = true;
    epoch_unix_us = us;
    epoch_at_ticks = now_us;
    epoch_set = true;
  }
  | none ↦ record s { session_id = id; session_pinned = true; epoch_set = false }
]

-- The caching half of `node_id`: the base MAC is read and stored while the cell is 0.
unfoldable pub load_node_id : Mac → Session → Session
load_node_id base_mac s = record s {
  node_id = if s.node_id == 0 then pack_mac base_mac else s.node_id;
}

-- What `node_id` returns.
unfoldable pub node_id : Mac → Session → Mac
unfolding load_node_id
node_id base_mac s = unpack_mac (load_node_id base_mac s).node_id

unfoldable pub begin_run : Mac → ℕ → Bool → Bool → Session → Session
unfolding load_node_id
begin_run base_mac random controlled header_digest s =
    let loaded = load_node_id base_mac s in
    record loaded {
      session_id = if s.session_pinned then s.session_id else random;
      stream_seq = 0;
      ts_last_raw = 0;
      ts_wraps = 0;
      stimulus_controlled = controlled;
      setup_id = 0;
      sounding_instance = 0;
      header_digest = header_digest;
      anchor_pending = true;
    }

-- `set_header_digest_enabled`, `set_sounding_instance` and `set_setup_id`.
abbrev pub set_header_digest_enabled : Bool → Session → Session
set_header_digest_enabled enabled s = record s { header_digest = enabled }

abbrev pub set_sounding_instance : ℕ → Session → Session
set_sounding_instance instance' s = record s { sounding_instance = instance' }

abbrev pub set_setup_id : ℕ → Session → Session
set_setup_id id s = record s { setup_id = id }

-- `HALF`.
abbrev pub half : ℕ
half = (2 ^ 32 - 1) / 2

-- `(wraps << 32) | raw`, a sum since the raw value has 32 bits.
abbrev pub wide : ℕ → ℕ → ℕ
wide wraps raw = wraps * 2 ^ 32 + raw

-- `widen_timestamp`: the state and the result.
unfoldable pub widen_timestamp : ℕ → Session → Session × ℕ
widen_timestamp raw s =
    if ltb raw s.ts_last_raw
    then if ltb half (s.ts_last_raw - raw)
      then (let wraps = (s.ts_wraps + 1) % 2 ^ 32 in
          (record s { ts_wraps = wraps; ts_last_raw = raw }, wide wraps raw))
      else (s, wide s.ts_wraps raw)
    else if ltb half (raw - s.ts_last_raw) && ltb 0 s.ts_wraps
    then (s, wide (s.ts_wraps - 1) raw)
    else (record s { ts_last_raw = raw }, wide s.ts_wraps raw)

unfoldable pub next_envelope : Mac → SourceKind → Session → Session × Envelope
unfolding load_node_id node_id
next_envelope base_mac source s =
    let loaded = load_node_id base_mac s in
    (
      record loaded { stream_seq = (s.stream_seq + 1) % 2 ^ 32 },
      new_envelope (node_id base_mac s) s.session_id source s.stream_seq,
    )

-- `stimulus`, with the `u16` cast of the sounding number.
unfoldable pub stimulus : Mac → Option ℕ → Session → Stimulus
stimulus ta number s =
    if s.stimulus_controlled
    then Stimulus.controlled s.setup_id (unwrap_or number s.sounding_instance % 2 ^ 16) ta
    else Stimulus.ambient ta

-- The wall-clock anchor of `take_announcement`, at `now_us`; `-` is `saturating_sub`.
abbrev pub anchor : ℕ → Session → Option ℕ
anchor now_us s =
    if s.epoch_set then some ((s.epoch_unix_us + (now_us - s.epoch_at_ticks)) % 2 ^ 64) else none

unfoldable pub take_announcement : Chip → List ℕ → ℕ → ℕ → Session → Session × Option SessionInfo
take_announcement chip crate_version now_us timestamp_us s =
    if s.anchor_pending
    then (
      record s { anchor_pending = false },
      some (record {
        chip = chip;
        crate_version = crate_version;
        timestamp_us = timestamp_us;
        epoch_unix_us = anchor now_us s;
      }),
    )
    else (s, none)
