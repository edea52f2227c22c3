-- ===== src/Wire/Header/Probe.antt =====
-- What a receiver reads from an emitter's frame, and which frames have a digest.
use esp_csi_rs.Base.{ℕ, ◌≤◌, ◌≡◌, refl, false, some, List, ◌++◌, ltb, length, drop, arith}
use esp_csi_rs.Mac.{Mac}
use esp_csi_rs.Wire.{HeaderDigest}
use esp_csi_rs.Wire.Header.{header_len, frame_type, is_retry, parse, build_probe_frame, probe_bytes}

-- The digest of an emitter's frame.
abbrev seen : Mac → Mac → HeaderDigest
seen src dst = record { frame_control = 8; addr1 = dst; addr2 = src; addr3 = src; seq_ctrl = 0 }

parse-probe_bytes :
    (src dst : Mac) (rest : List ℕ) → parse (probe_bytes src dst ++ rest) ≡ some (seen src dst)
unfolding parse
parse-probe_bytes src dst rest =
    let enough : ltb (length (probe_bytes src dst ++ rest)) header_len ≡ false = ground arith in
    rw (enough, parse) refl

-- In a buffer of at least 32 bytes, a receiver that parses the start of an emitter's frame finds
-- the destination as first address and the emitter as second and third, in a data frame that is
-- no retry; the call writes 32 bytes and keeps the rest of the buffer.
pub parse-build_probe_frame :
    (src dst : Mac) (buf : List ℕ)
    → 32 ≤ length buf
    → let (n, written) = build_probe_frame src dst buf in
      (n ≡ 32)
      × (drop 32 written ≡ drop 32 buf)
      × ((h : HeaderDigest) × (parse written ≡ some h)
          × (h.addr1 ≡ dst)
          × (h.addr2 ≡ src)
          × (h.addr3 ≡ src)
          × (frame_type h ≡ 2)
          × (is_retry h ≡ false))
unfolding build_probe_frame parse frame_type is_retry
parse-build_probe_frame src dst buf h =
    let enough : ltb (length buf) 32 ≡ false = ground arith in
    rw (enough, build_probe_frame)
      (
        refl,
        refl,
        (seen src dst, parse-probe_bytes src dst (drop 32 buf), refl, refl, refl, refl, refl),
      )
