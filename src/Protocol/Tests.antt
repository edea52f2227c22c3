-- ===== src/Protocol/Tests.antt =====
-- tests
use esp_csi_rs.Base.{
  ℕ, ◌≡◌, refl, sym, ◌∙◌, Bool-cases, inl, inr, Bool, true, false, Option, none, some, List, [],
  ◌∷◌, ◌++◌, ◌==◌, ltb, if◌then◌else◌, arith,
}
use esp_csi_rs.Protocol.{
  ControlPacket, Serialized, initiator_magic_number, serialize_with_magic, parse_with_magic,
}
use esp_csi_rs.Protocol.Framing.{IsRoundTrip, parse_with_magic-serialize_with_magic}

-- A fixed-width encoder in postcard's place: the flag, then the sequence number as one element.
abbrev write_seq : ControlPacket → ℕ → Option (List ℕ)
write_seq p room =
    if ltb room 5
    then none
    else some ((if p.initiator_reports then 1 else 0) ∷ p.sequence_number ∷ [])

abbrev read_packet : List ℕ → Option (ControlPacket × List ℕ)
read_packet [] = none
read_packet (flag ∷ []) = none
read_packet (flag ∷ n ∷ rest) =
    some (record { initiator_reports = flag == 1; sequence_number = n }, rest)

flag_back :
    (b : Bool) (n : ℕ) (rest : List ℕ)
    → read_packet ((if b then 1 else 0) ∷ n ∷ rest)
      ≡ some (record { initiator_reports = b; sequence_number = n }, rest)
flag_back true n rest = refl
flag_back false n rest = refl

read_packet-write_seq : IsRoundTrip write_seq read_packet
read_packet-write_seq packet room body rest h = elim (Bool-cases (ltb room 5)) [
  | inl small ↦ let e : write_seq packet room ≡ none = rw (small, write_seq) refl in cc
  | inr fits ↦
      let e : some body
          ≡ some ((if packet.initiator_reports then 1 else 0) ∷ packet.sequence_number ∷ []) =
        sym h ∙ rw (fits, write_seq) refl in
      let shape : body ≡ (if packet.initiator_reports then 1 else 0) ∷ packet.sequence_number ∷ [] =
        cc in
      rw shape (flag_back packet.initiator_reports packet.sequence_number rest)
]

abbrev control : ControlPacket
control = record { initiator_reports = true; sequence_number = 513 }

abbrev framed : List ℕ
framed = 0xF0 ∷ 0x2B ∷ 0x91 ∷ 0xA8 ∷ 1 ∷ 513 ∷ []

control_written :
    serialize_with_magic write_seq control initiator_magic_number true 64
    ≡ Serialized.written framed
unfolding serialize_with_magic
control_written = refl

parse_with_magic-serialize_with_magic_example :
    parse_with_magic read_packet (framed ++ (7 ∷ [])) initiator_magic_number true ≡ some control
parse_with_magic-serialize_with_magic_example =
    parse_with_magic-serialize_with_magic write_seq read_packet control initiator_magic_number true
      64 framed (7 ∷ []) read_packet-write_seq (omega arith) control_written
