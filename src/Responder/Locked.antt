-- ===== src/Responder/Locked.antt =====
-- The locked initiator: the address in the `u64`, and which frames count.
use esp_csi_rs.Base.{ℕ, ◌+◌, ◌*◌, ◌/◌, ◌^◌, ◌≡◌, refl, arith}
use esp_csi_rs.Base.Bits.{bit_or_above, bit_and-mask}
use esp_csi_rs.Mac.{Mac, IsMac}
use esp_csi_rs.Responder.{mac_to_u64, u64_to_mac}

-- The packed value in positional notation.
abbrev little_endian : Mac → ℕ
little_endian m =
    m.b0 + m.b1 * 2 ^ 8 + m.b2 * 2 ^ 16 + m.b3 * 2 ^ 24 + m.b4 * 2 ^ 32 + m.b5 * 2 ^ 40

mac_to_u64_lem : (m : Mac) → IsMac m → mac_to_u64 m ≡ little_endian m
unfolding mac_to_u64
mac_to_u64_lem m v =
    rw
      (
        bit_or_above 8 m.b1 m.b0 v.r0,
        bit_or_above 16 m.b2 (m.b0 + m.b1 * 2 ^ 8) (omega (arith, v.r0, v.r1)),
        bit_or_above 24 m.b3 (m.b0 + m.b1 * 2 ^ 8 + m.b2 * 2 ^ 16)
            (omega (arith, v.r0, v.r1, v.r2)),
        bit_or_above 32 m.b4 (m.b0 + m.b1 * 2 ^ 8 + m.b2 * 2 ^ 16 + m.b3 * 2 ^ 24)
            (omega (arith, v.r0, v.r1, v.r2, v.r3)),
        bit_or_above 40 m.b5 (m.b0 + m.b1 * 2 ^ 8 + m.b2 * 2 ^ 16 + m.b3 * 2 ^ 24 + m.b4 * 2 ^ 32)
            (omega (arith, v.r0, v.r1, v.r2, v.r3, v.r4)),
      )
      refl

-- An address of six bytes survives its packing.
pub u64_to_mac-mac_to_u64 : (m : Mac) → IsMac m → u64_to_mac (mac_to_u64 m) ≡ m
unfolding u64_to_mac
u64_to_mac-mac_to_u64 m v =
    rw
      (
        bit_and-mask 8 (mac_to_u64 m),
        bit_and-mask 8 (mac_to_u64 m / 2 ^ 8),
        bit_and-mask 8 (mac_to_u64 m / 2 ^ 16),
        bit_and-mask 8 (mac_to_u64 m / 2 ^ 24),
        bit_and-mask 8 (mac_to_u64 m / 2 ^ 32),
        bit_and-mask 8 (mac_to_u64 m / 2 ^ 40),
        mac_to_u64_lem m v,
      )
      (ground arith)
