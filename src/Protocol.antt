-- ===== src/Protocol.antt =====
-- src/lib/protocol.rs: the magic-prefix framing of the ESP-NOW packets.
-- `postcard` is a parameter: `to_slice` takes a packet and the room in the buffer, `take_from_bytes`
-- gives the packet and the bytes behind it.
pub mod Framing
pub mod Sequence
mod Tests
use esp_csi_rs.Base.{
  ℕ, suc, ◌+◌, ◌-◌, ◌*◌, ◌/◌, ◌%◌, ◌^◌, Bool, true, false, not, ◌&&◌, ◌||◌, Option, none, some,
  List, [], ◌∷◌, ◌++◌, ◌==◌, ltb, if◌then◌else◌, length, get_or, drop,
}

pub record ControlPacket : Type 0 where
  pub initiator_reports : Bool
  pub sequence_number : ℕ

-- `INITIATOR_MAGIC_NUMBER`, and its complement `RESPONDER_MAGIC_NUMBER`.
abbrev pub initiator_magic_number : ℕ
initiator_magic_number = 0xA8912BF0

abbrev pub responder_magic_number : ℕ
responder_magic_number = 2 ^ 32 - 1 - initiator_magic_number

-- `u32::to_le_bytes` and `u32::from_le_bytes` of the first four bytes.
abbrev pub to_le_bytes : ℕ → List ℕ
to_le_bytes n = n % 256 ∷ n / 2 ^ 8 % 256 ∷ n / 2 ^ 16 % 256 ∷ n / 2 ^ 24 % 256 ∷ []

abbrev pub from_le_bytes : List ℕ → ℕ
from_le_bytes bytes =
    get_or bytes 0 0
    + (2 ^ 8 * get_or bytes 1 0 + (2 ^ 16 * get_or bytes 2 0 + 2 ^ 24 * get_or bytes 3 0))

-- What `serialize_with_magic` comes to; a slice out of the buffer's bounds panics.
pub data Serialized : Type 0 where
  panic error : Serialized
  written : List ℕ → Serialized

-- `serialize_with_magic` into a buffer of `room` bytes.
unfoldable pub serialize_with_magic :
    {A : Type 0} → (A → ℕ → Option (List ℕ)) → A → ℕ → Bool → ℕ → Serialized
serialize_with_magic to_slice packet magic send_magic room =
    if send_magic
    then if ltb room 4 then Serialized.panic else (elim (to_slice packet (room - 4)) [
      | none ↦ Serialized.error
      | some body ↦ Serialized.written (to_le_bytes magic ++ body)
    ])
    else (elim (to_slice packet room) [
      | none ↦ Serialized.error
      | some body ↦ Serialized.written body
    ])

-- `.ok().map(|(v, _rest)| v)`.
abbrev pub first : {A : Type 0} → Option (A × List ℕ) → Option A
first none = none
first (some p) = some p.0

unfoldable pub parse_with_magic :
    {A : Type 0} → (List ℕ → Option (A × List ℕ)) → List ℕ → ℕ → Bool → Option A
parse_with_magic take_from_bytes bytes magic expect_magic =
    if expect_magic
    then if ltb (length bytes) 4 || not (from_le_bytes bytes == magic)
      then none
      else first (take_from_bytes (drop 4 bytes))
    else first (take_from_bytes bytes)

-- Whether a window that starts here is the given one.
abbrev pub starts_with : List ℕ → List ℕ → Bool
starts_with [] bytes = true
starts_with (w ∷ ws) [] = false
starts_with (w ∷ ws) (x ∷ xs) = w == x && starts_with ws xs

-- `windows(4).position(|w| w == magic)`.
unfoldable pub position : List ℕ → List ℕ → Option ℕ
position window [] = none
position window (x ∷ xs) =
    let rest = position window xs in
    if starts_with window (x ∷ xs)
    then some 0
    else (elim rest [ none ↦ none | some i ↦ some (suc i) ])

-- `.map(|(p, _)| p.sequence_number)`.
abbrev pub map_sequence : Option ControlPacket → Option ℕ
map_sequence none = none
map_sequence (some p) = some p.sequence_number

unfoldable pub control_sequence_in : (List ℕ → Option (ControlPacket × List ℕ)) → List ℕ → Option ℕ
control_sequence_in take_from_bytes payload =
    elim (position (to_le_bytes initiator_magic_number) payload) [
      | none ↦ none
      | some at' ↦ map_sequence (first (take_from_bytes (drop (at' + 4) payload)))
    ]
