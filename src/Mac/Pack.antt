-- ===== src/Mac/Pack.antt =====
-- `pack_mac` in positional notation, and its inverse.
use esp_csi_rs.Base.{ℕ, ◌+◌, ◌*◌, ◌%◌, ◌^◌, ◌<◌, ◌≡◌, ap, ◌∙◌, bit_or, ◌&&◌, ◌==◌, arith}
use esp_csi_rs.Base.Bits.{bit_or_shifted}
use esp_csi_rs.Mac.{Mac, IsMac, pack_byte, pack_mac, unpack_mac, mac_eq}

pack_byte_sum : (v b : ℕ) → v < 2 ^ 56 → b < 256 → pack_byte v b ≡ v * 256 + b
pack_byte_sum v b h k =
    let small : v * 2 ^ 8 % 2 ^ 64 ≡ v * 2 ^ 8 = omega arith in
    ap (λ t. bit_or t b) small ∙ bit_or_shifted 8 v b k

-- The packed value in positional notation.
abbrev pub positional : Mac → ℕ
positional m = ((((m.b0 * 256 + m.b1) * 256 + m.b2) * 256 + m.b3) * 256 + m.b4) * 256 + m.b5

pub pack_mac_lem : (m : Mac) → IsMac m → pack_mac m ≡ positional m
unfolding pack_mac
pack_mac_lem m v =
    let e0 : pack_byte 0 m.b0 ≡ m.b0 = pack_byte_sum 0 m.b0 (omega arith) v.r0 ∙ omega arith in
    rw e0 (
      rw (pack_byte_sum m.b0 m.b1 (omega (arith, v.r0)) v.r1) (
        rw (pack_byte_sum (m.b0 * 256 + m.b1) m.b2 (omega (arith, v.r0, v.r1)) v.r2) (
          rw
            (pack_byte_sum ((m.b0 * 256 + m.b1) * 256 + m.b2) m.b3 (omega (arith, v.r0, v.r1, v.r2))
              v.r3)
            (rw
              (pack_byte_sum (((m.b0 * 256 + m.b1) * 256 + m.b2) * 256 + m.b3) m.b4
                (omega (arith, v.r0, v.r1, v.r2, v.r3)) v.r4)
              (pack_byte_sum ((((m.b0 * 256 + m.b1) * 256 + m.b2) * 256 + m.b3) * 256 + m.b4) m.b5
                (omega (arith, v.r0, v.r1, v.r2, v.r3, v.r4)) v.r5)))))

-- Unpacking a packed address of six bytes gives the address back.
pub unpack_mac-pack_mac : (m : Mac) → IsMac m → unpack_mac (pack_mac m) ≡ m
unfolding unpack_mac
unpack_mac-pack_mac m v = rw (pack_mac_lem m v) (ground arith)

digit_eq : (a b c d : ℕ) → b < 256 → d < 256 → (a * 256 + b == c * 256 + d) ≡ (a == c && b == d)
digit_eq a b c d h k = ground arith

-- Two addresses of six bytes pack to one number exactly if they are the same.
pub pack_mac-eq : (m k : Mac) → IsMac m → IsMac k → (pack_mac m == pack_mac k) ≡ mac_eq m k
pack_mac-eq m k v w = rw (
  pack_mac_lem m v,
  pack_mac_lem k w,
  digit_eq _ m.b5 _ k.b5 v.r5 w.r5,
  digit_eq _ m.b4 _ k.b4 v.r4 w.r4,
  digit_eq _ m.b3 _ k.b3 v.r3 w.r3,
  digit_eq _ m.b2 _ k.b2 v.r2 w.r2,
  digit_eq m.b0 m.b1 k.b0 k.b1 v.r1 w.r1,
)
