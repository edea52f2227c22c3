-- ===== src/Packet/Run.antt =====
-- The packets of one run, in the order in which they are built.
use esp_csi_rs.Base.{
  ℕ, zero, suc, ◌+◌, ◌%◌, ◌^◌, ◌≡◌, refl, sym, ◌⊎◌, inl, inr, ◌==◌, Bool-cases, ap₂, ◌∙◌, Bool,
  true, false, List, [], ◌∷◌, map, is_some, if◌then◌else◌, length, arith,
}
use esp_csi_rs.Mac.{Mac, IsMac, pack_mac}
use esp_csi_rs.Mac.Pack.{unpack_mac-pack_mac}
use esp_csi_rs.Wire.{CsiFrame, SourceKind}
use esp_csi_rs.Session.{Session, begin_run, load_node_id, node_id, next_envelope, take_announcement}
use esp_csi_rs.Packet.{Device, CsiPacket, new_packet}

-- A measurement handed to `CsiPacket::new`: its source, its frame and the time of the call.
pub record Arrival : Type 0 where
  pub source : SourceKind
  pub frame : CsiFrame
  pub now_us : ℕ

unfoldable pub packets : Device → List Arrival → Session → List CsiPacket
packets d [] s = []
packets d (a ∷ as') s =
    let (s', p) = new_packet d a.now_us a.source a.frame s in p ∷ packets d as' s'

-- The stamp of a packet that does not come from the radio.
pub record Stamp : Type 0 where
  pub session_id : ℕ
  pub stream_seq : ℕ
  pub node : Mac
  pub announced : Bool

abbrev pub stamp : CsiPacket → Stamp
stamp p = record {
  session_id = p.envelope.session_id;
  stream_seq = p.envelope.stream_seq;
  node = p.envelope.node_id;
  announced = is_some p.session;
}

-- The stamps that `n` packets of a session should have, numbered from `i`; only the packet numbered
-- 0 announces.
unfoldable pub stamps : ℕ → Mac → ℕ → ℕ → Bool → List Stamp
stamps id node zero i first = []
stamps id node (suc n) i first =
    record { session_id = id; stream_seq = i % 2 ^ 32; node = node; announced = first }
    ∷ stamps id node n (i + 1) false

-- Where a run stands when it is about to build packet `i`.
record Stands (d : Device) (id i : ℕ) (first : Bool) (s : Session) : Type 0 where
  session : s.session_id ≡ id
  seq : s.stream_seq ≡ i % 2 ^ 32
  pending : s.anchor_pending ≡ first
  node : node_id d.base_mac s ≡ d.base_mac

-- Reading the cell again gives the same address.
node_id_again : (m : Mac) (s : Session) → node_id m (load_node_id m s) ≡ node_id m s
unfolding node_id load_node_id
node_id_again m s = elim (Bool-cases (s.node_id == 0)) [
  | inl e ↦
      let again : (if pack_mac m == 0 then pack_mac m else pack_mac m) ≡ pack_mac m =
        ground arith in
      rw (e, again) refl
  | inr e ↦ rw (e, e) refl
]

node_id_known :
    (m : Mac) (s : Session)
    → IsMac m
    → (s.node_id ≡ 0) ⊎ (s.node_id ≡ pack_mac m)
    → node_id m (load_node_id m s) ≡ m
unfolding node_id load_node_id
node_id_known m s v (inl e) = node_id_again m s ∙ rw e (unpack_mac-pack_mac m v)
node_id_known m s v (inr e) =
    let again : (if pack_mac m == 0 then pack_mac m else pack_mac m) ≡ pack_mac m = ground arith in
    node_id_again m s ∙ rw (e, again) (unpack_mac-pack_mac m v)

stamp_eq :
    {id id' q q' : ℕ} {n n' : Mac} {b b' : Bool}
    → id ≡ id'
    → q ≡ q'
    → n ≡ n'
    → b ≡ b'
    → ◌≡◌ {A = Stamp}
        (record { session_id = id; stream_seq = q; node = n; announced = b })
        (record { session_id = id'; stream_seq = q'; node = n'; announced = b' })
stamp_eq e f g h = rw (e, f, g, h) refl

next_seq : (q i : ℕ) → q ≡ i % 2 ^ 32 → (q + 1) % 2 ^ 32 ≡ (i + 1) % 2 ^ 32
next_seq q i h = omega arith

new_packet-Stands :
    (d : Device) (id i : ℕ) (first : Bool) (a : Arrival) (s : Session)
    → Stands d id i first s
    → Stands d id (i + 1) false (new_packet d a.now_us a.source a.frame s).0
      × (stamp (new_packet d a.now_us a.source a.frame s).1 ≡ record {
        session_id = id;
        stream_seq = i % 2 ^ 32;
        node = d.base_mac;
        announced = first;
      })
unfolding new_packet take_announcement next_envelope node_id
new_packet-Stands d id i first a s h =
    let node : node_id d.base_mac (load_node_id d.base_mac s) ≡ d.base_mac =
      node_id_again _ s ∙ h.node in
    elim (Bool-cases s.anchor_pending) [
      | inl e ↦
          rw (e, if◌then◌else◌)
            (
              record { session = h.session; seq = next_seq _ i h.seq; pending = refl; node = node },
              stamp_eq h.session h.seq h.node (sym e ∙ h.pending),
            )
      | inr e ↦
          rw (e, if◌then◌else◌)
            (
              record { session = h.session; seq = next_seq _ i h.seq; pending = refl; node = node },
              stamp_eq h.session h.seq h.node (sym e ∙ h.pending),
            )
    ]

packets-stamps :
    (d : Device) (id : ℕ) (as' : List Arrival) (i : ℕ) (first : Bool) (s : Session)
    → Stands d id i first s
    → map stamp (packets d as' s) ≡ stamps id d.base_mac (length as') i first
unfolding packets stamps
packets-stamps d id [] i first s h = refl
packets-stamps d id (a ∷ as') i first s h =
    let (h', e) = new_packet-Stands d id i first a s h in
    ap₂ ◌∷◌ e
      (packets-stamps d id as' (i + 1) false (new_packet d a.now_us a.source a.frame s).0 h')

-- From the start of a run on, whatever ran before, if the board's MAC has six bytes and the
-- node-id cell is empty or holds it: the packets carry the sequence numbers 0, 1, 2, … modulo
-- 2^32, the first one alone announces the session, and all of them name the session (the pinned
-- one, else the random one) and the board's MAC.
pub packets-begin_run :
    (d : Device) (random : ℕ) (controlled digest : Bool) (s : Session) (as' : List Arrival)
    → IsMac d.base_mac
    → (s.node_id ≡ 0) ⊎ (s.node_id ≡ pack_mac d.base_mac)
    → map stamp (packets d as' (begin_run d.base_mac random controlled digest s))
      ≡ stamps (if s.session_pinned then s.session_id else random) d.base_mac (length as') 0 true
unfolding begin_run node_id
packets-begin_run d random controlled digest s as' v cell =
    packets-stamps d _ as' 0 true _ (record {
      session = refl;
      seq = refl;
      pending = refl;
      node = node_id_known d.base_mac s v cell;
    })
