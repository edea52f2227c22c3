-- ===== src/Protocol/Sequence.antt =====
-- `control_sequence_in` on a whole received frame.
use esp_csi_rs.Base.{
  ℕ, suc, ◌+◌, ◌≡◌, refl, ap, ◌∙◌, true, false, Option, some, List, [], ◌∷◌, ◌++◌, ◌==◌, subst,
  length, drop, arith,
}
use esp_csi_rs.Protocol.{
  ControlPacket, initiator_magic_number, to_le_bytes, Serialized, serialize_with_magic,
  control_sequence_in, position, map_sequence, starts_with, first,
}
use esp_csi_rs.Protocol.Framing.{IsRoundTrip, written_lem}

-- The window does not start at any element of the prefix.
abbrev pub IsFirst : List ℕ → List ℕ → List ℕ → Type 0
IsFirst window [] tail = Unit {0}
IsFirst window (x ∷ xs) tail =
    (starts_with window (x ∷ xs ++ tail) ≡ false) × IsFirst window xs tail

starts_with_self : (window rest : List ℕ) → starts_with window (window ++ rest) ≡ true
starts_with_self [] rest = refl
starts_with_self (w ∷ ws) rest =
    let same : (w == w) ≡ true = ground arith in rw (same, starts_with_self ws rest) refl

position_first :
    (w : ℕ) (ws prefix rest : List ℕ)
    → IsFirst (w ∷ ws) prefix (w ∷ ws ++ rest)
    → position (w ∷ ws) (prefix ++ (w ∷ ws ++ rest)) ≡ some (length prefix)
unfolding position
position_first w ws [] rest h = rw (starts_with_self (w ∷ ws) rest) refl
position_first w ws (x ∷ xs) rest h = rw (h.0, position_first w ws xs rest h.1) refl

drop_prefix :
    (prefix : List ℕ) (a b c d : ℕ) (rest : List ℕ)
    → drop (length prefix + 4) (prefix ++ (a ∷ b ∷ c ∷ d ∷ rest)) ≡ rest
drop_prefix [] a b c d rest = refl
drop_prefix (x ∷ xs) a b c d rest =
    let e : suc (length xs) + 4 ≡ suc (length xs + 4) = omega arith in
    rw e (drop_prefix xs a b c d rest)

control_sequence_behind :
    (take_from_bytes : List ℕ → Option (ControlPacket × List ℕ)) (prefix tail : List ℕ)
    → IsFirst
        (to_le_bytes initiator_magic_number)
        prefix
        (to_le_bytes initiator_magic_number ++ tail)
    → control_sequence_in take_from_bytes (prefix ++ (to_le_bytes initiator_magic_number ++ tail))
      ≡ map_sequence (first (take_from_bytes tail))
unfolding control_sequence_in
control_sequence_behind take_from_bytes prefix tail h =
    let at' : position (to_le_bytes initiator_magic_number)
          (prefix ++ (to_le_bytes initiator_magic_number ++ tail))
        ≡ some (length prefix) =
      position_first _ _ prefix tail h in
    rw (control_sequence_in, at', drop_prefix prefix _ _ _ _ tail) refl

-- If postcard reads back what it writes and the magic number does not occur earlier in the
-- payload, the sequence number found in a frame that carries a control packet behind any prefix
-- is that packet's.
pub control_sequence_in-serialize_with_magic :
    (to_slice : ControlPacket → ℕ → Option (List ℕ))
    (take_from_bytes : List ℕ → Option (ControlPacket × List ℕ)) (packet : ControlPacket) (room : ℕ)
    (frame prefix rest : List ℕ)
    → IsRoundTrip to_slice take_from_bytes
    → serialize_with_magic to_slice packet initiator_magic_number true room
      ≡ Serialized.written frame
    → IsFirst (to_le_bytes initiator_magic_number) prefix (frame ++ rest)
    → control_sequence_in take_from_bytes (prefix ++ (frame ++ rest)) ≡ some packet.sequence_number
control_sequence_in-serialize_with_magic to_slice take_from_bytes packet room frame prefix rest trip
      wrote first' =
    let (body, w, shape) =
      written_lem to_slice take_from_bytes packet initiator_magic_number true room frame wrote in
    let m : List ℕ = to_le_bytes initiator_magic_number in
    let shape' : frame ≡ m ++ body = shape in
    let h : IsFirst m prefix ((m ++ body) ++ rest) =
      subst (λ f. IsFirst m prefix (f ++ rest)) shape' first' in
    let e : control_sequence_in take_from_bytes (prefix ++ ((m ++ body) ++ rest))
        ≡ map_sequence (first (take_from_bytes (body ++ rest))) =
      control_sequence_behind take_from_bytes prefix (body ++ rest) h in
    ap (λ f. control_sequence_in take_from_bytes (prefix ++ (f ++ rest))) shape'
    ∙ (e ∙ ap (λ r. map_sequence (first r)) (trip packet _ body rest w))
