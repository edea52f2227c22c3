-- ===== src/Protocol/Framing.antt =====
-- `serialize_with_magic` and `parse_with_magic` together.
use esp_csi_rs.Base.{
  ℕ, ◌-◌, ◌^◌, ◌<◌, ◌≡◌, ◌≢◌, refl, Bool, true, false, Option, none, some, List, ◌++◌, ◌==◌, ltb,
  if◌then◌else◌, length, Bool-cases, Option-cases, inl, inr, arith,
}
use esp_csi_rs.Protocol.{
  to_le_bytes, from_le_bytes, Serialized, serialize_with_magic, parse_with_magic, first,
}

-- What postcard documents: a packet it wrote is read back, with what follows it left over.
abbrev pub IsRoundTrip :
    {A : Type 0} → (A → ℕ → Option (List ℕ)) → (List ℕ → Option (A × List ℕ)) → Type 0
IsRoundTrip to_slice take_from_bytes =
    (packet : _) (room : ℕ) (body rest : List ℕ)
    → to_slice packet room ≡ some body
    → take_from_bytes (body ++ rest) ≡ some (packet, rest)

from_le_bytes-to_le_bytes :
    (n : ℕ) (rest : List ℕ) → n < 2 ^ 32 → from_le_bytes (to_le_bytes n ++ rest) ≡ n
from_le_bytes-to_le_bytes n rest h = ground arith

same : (n : ℕ) → (n == n) ≡ true
same n = ground arith

differs : (m n : ℕ) → m ≢ n → (m == n) ≡ false
differs m n h = ground arith

long_enough : (magic : ℕ) (rest : List ℕ) → ltb (length (to_le_bytes magic ++ rest)) 4 ≡ false
long_enough magic rest = ground arith

module _ {A : Type 0} (to_slice : A → ℕ → Option (List ℕ))
    (take_from_bytes : List ℕ → Option (A × List ℕ)) where
  parse_expected :
      (magic : ℕ) (bytes : List ℕ)
      → magic < 2 ^ 32
      → parse_with_magic take_from_bytes (to_le_bytes magic ++ bytes) magic true
        ≡ first (take_from_bytes bytes)
  unfolding parse_with_magic
  parse_expected magic bytes h =
      rw (long_enough magic bytes, from_le_bytes-to_le_bytes magic bytes h, same magic) refl

  parse_other :
      (magic other : ℕ) (bytes : List ℕ)
      → magic < 2 ^ 32
      → magic ≢ other
      → parse_with_magic take_from_bytes (to_le_bytes magic ++ bytes) other true ≡ none
  unfolding parse_with_magic
  parse_other magic other bytes h ne =
      rw (long_enough magic bytes, from_le_bytes-to_le_bytes magic bytes h, differs magic other ne)
        refl

  -- What a successful write holds.
  pub written_lem :
      (packet : A) (magic : ℕ) (send : Bool) (room : ℕ) (frame : List ℕ)
      → serialize_with_magic to_slice packet magic send room ≡ Serialized.written frame
      → (body : List ℕ) × (to_slice packet (if send then room - 4 else room) ≡ some body)
        × (frame ≡ (if send then to_le_bytes magic ++ body else body))
  unfolding serialize_with_magic
  written_lem packet magic true room frame h = elim (Bool-cases (ltb room 4)) [
    | inl small ↦
        let e : serialize_with_magic to_slice packet magic true room ≡ Serialized.panic =
          rw (small, if◌then◌else◌) refl in
        cc
    | inr fits ↦ (elim (Option-cases (to_slice packet (room - 4))) [
      | inl e ↦
          let e' : serialize_with_magic to_slice packet magic true room ≡ Serialized.error =
            rw (fits, e, if◌then◌else◌) refl in
          cc
      | inr f ↦
          let e' : serialize_with_magic to_slice packet magic true room
              ≡ Serialized.written (to_le_bytes magic ++ f.0) =
            rw (fits, f.1, if◌then◌else◌) refl in
          (f.0, f.1, cc)
    ])
  ]
  written_lem packet magic false room frame h = elim (Option-cases (to_slice packet room)) [
    | inl e ↦
        let e' : serialize_with_magic to_slice packet magic false room ≡ Serialized.error =
          rw e refl in
        cc
    | inr f ↦
        let e' : serialize_with_magic to_slice packet magic false room ≡ Serialized.written f.0 =
          rw f.1 refl in
        (f.0, f.1, cc)
  ]

  -- If postcard reads back what it writes, a packet that was written is read back, whatever bytes
  -- follow it in the received frame, with a 32-bit magic number or without.
  pub parse_with_magic-serialize_with_magic :
      (packet : A) (magic : ℕ) (send : Bool) (room : ℕ) (frame rest : List ℕ)
      → IsRoundTrip to_slice take_from_bytes
      → magic < 2 ^ 32
      → serialize_with_magic to_slice packet magic send room ≡ Serialized.written frame
      → parse_with_magic take_from_bytes (frame ++ rest) magic send ≡ some packet
  unfolding parse_with_magic
  parse_with_magic-serialize_with_magic packet magic true room frame rest trip h e =
      let (body, wrote, shape) = written_lem packet magic true room frame e in
      rw (shape, parse_expected magic (body ++ rest) h, trip packet _ body rest wrote) refl
  parse_with_magic-serialize_with_magic packet magic false room frame rest trip h e =
      let (body, wrote, shape) = written_lem packet magic false room frame e in
      rw (shape, trip packet _ body rest wrote) refl

  -- A packet that was written under one 32-bit magic number is not read under another, whatever
  -- follows.
  parse_with_magic-other :
      (packet : A) (magic other room : ℕ) (frame rest : List ℕ)
      → magic < 2 ^ 32
      → magic ≢ other
      → serialize_with_magic to_slice packet magic true room ≡ Serialized.written frame
      → parse_with_magic take_from_bytes (frame ++ rest) other true ≡ none
  parse_with_magic-other packet magic other room frame rest h ne e =
      let (body, wrote, shape) = written_lem packet magic true room frame e in
      rw (shape, parse_other magic other (body ++ rest) h ne) refl
