-- ===== src/Mac.antt =====
-- A MAC address, `[u8; 6]`, and the packing into the low 48 bits of a `u64` that
-- src/lib/csi/delivery.rs (`pack_mac`, `csi_peer_filter`) and src/lib/csi/session.rs (`node_id`) use.
pub mod Pack
mod Tests
use esp_csi_rs.Base.{ℕ, ◌*◌, ◌/◌, ◌%◌, ◌^◌, ◌<◌, bit_or, Bool, ◌&&◌, List, [], ◌∷◌, ◌==◌}

pub record Mac : Type 0 where
  pub b0 : ℕ
  pub b1 : ℕ
  pub b2 : ℕ
  pub b3 : ℕ
  pub b4 : ℕ
  pub b5 : ℕ

-- Each element is a byte.
pub record IsMac (m : Mac) : Type 0 where
  pub r0 : m.b0 < 256
  pub r1 : m.b1 < 256
  pub r2 : m.b2 < 256
  pub r3 : m.b3 < 256
  pub r4 : m.b4 < 256
  pub r5 : m.b5 < 256

-- `[0; 6]`.
abbrev pub zero_mac : Mac
zero_mac = record { b0 = 0; b1 = 0; b2 = 0; b3 = 0; b4 = 0; b5 = 0 }

abbrev pub mac_bytes : Mac → List ℕ
mac_bytes m = m.b0 ∷ m.b1 ∷ m.b2 ∷ m.b3 ∷ m.b4 ∷ m.b5 ∷ []

-- `==` on the arrays.
abbrev pub mac_eq : Mac → Mac → Bool
mac_eq m k =
    ((((m.b0 == k.b0 && m.b1 == k.b1) && m.b2 == k.b2) && m.b3 == k.b3) && m.b4 == k.b4)
    && m.b5 == k.b5

-- `v = (v << 8) | b as u64`, one round of the loop.
abbrev pub pack_byte : ℕ → ℕ → ℕ
pack_byte v b = bit_or (v * 2 ^ 8 % 2 ^ 64) b

unfoldable pub pack_mac : Mac → ℕ
pack_mac m =
    pack_byte (pack_byte (pack_byte (pack_byte (pack_byte (pack_byte 0 m.b0) m.b1) m.b2) m.b3) m.b4)
      m.b5

-- `(v >> (8 * (5 - i))) as u8` for each `i`.
unfoldable pub unpack_mac : ℕ → Mac
unpack_mac v = record {
  b0 = v / 2 ^ 40 % 256;
  b1 = v / 2 ^ 32 % 256;
  b2 = v / 2 ^ 24 % 256;
  b3 = v / 2 ^ 16 % 256;
  b4 = v / 2 ^ 8 % 256;
  b5 = v / 2 ^ 0 % 256;
}
