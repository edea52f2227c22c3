-- ===== src/Esp/Layouts.antt =====
-- The payload of a frame from the vendor callback.
use esp_csi_rs.Base.{
  ℕ, ◌*◌, ◌%◌, ◌^◌, ◌≤◌, ◌≡◌, ◌⊎◌, refl, sym, ap, ◌∙◌, inl, inr, Option, none, some, List, length,
  ltb, ◌==◌, ==_iff, Bool-cases, Option-cases, arith,
}
use esp_csi_rs.Wire.{Chip, CsiFrame, CsiPayload, LayoutId, max_csi_bytes}
use esp_csi_rs.Wire.Layout.{byte_len, indices}
use esp_csi_rs.Wire.Layout.Classify.{checked, classify_classic, classify_c5, c5_ht}
use esp_csi_rs.Wire.Layout.Laws.{byte_len-indices}
use esp_csi_rs.Protocol.{ControlPacket}
use esp_csi_rs.Session.{Session, widen_timestamp}
use esp_csi_rs.Esp.{Info, Radio, rx_meta, classic_meta, he_meta, frame_from_esp}

-- The layout is unknown or fits a buffer of the length.
abbrev IsFitting : ℕ → LayoutId → Type 0
IsFitting len id = (id ≡ LayoutId.unknown) ⊎ (byte_len id ≡ some len)

checked-IsFitting : (id : LayoutId) (len : ℕ) → IsFitting len (checked id len)
unfolding checked
checked-IsFitting id len = elim (Option-cases (byte_len id)) [
  | inl e ↦ inl (rw (checked, e) refl)
  | inr (n, e) ↦ elim (Bool-cases (n == len)) [
    | inl same ↦ inr (rw (checked, e, same) (e ∙ ap some ((==_iff n len).0 same)))
    | inr other ↦ inl (rw (checked, e, other) refl)
  ]
]

classify_c5-IsFitting : (bb secondary len : ℕ) → IsFitting len (classify_c5 bb secondary len)
unfolding classify_c5 c5_ht byte_len
classify_c5-IsFitting bb secondary len = ground arith

rx_meta-IsFitting :
    (info : Info) (radio : Radio) (t : ℕ) → IsFitting (length info.buf) (rx_meta info radio t).1
unfolding rx_meta classic_meta he_meta classify_classic
rx_meta-IsFitting info (Radio.classic c) t = checked-IsFitting _ (length info.buf)
rx_meta-IsFitting info (Radio.c5 h) t = classify_c5-IsFitting _ _ _
rx_meta-IsFitting info (Radio.c6 h) t = inl refl

abbrev payload_of : Option CsiFrame → Option CsiPayload
payload_of none = none
payload_of (some f) = some f.payload

lists_pairs :
    (len : ℕ) (id : LayoutId)
    → IsFitting len id
    → (id ≡ LayoutId.unknown) ⊎ (len ≡ 2 * length (indices id))
lists_pairs len id (inl e) = inl e
lists_pairs len id (inr e) = inr (byte_len-indices id len e)

-- Every frame built from the vendor callback carries the buffer unchanged, of at most 612 bytes,
-- and its layout is unknown or lists exactly one subcarrier for each pair of bytes.
pub frame_from_esp-layout :
    (take_from_bytes : List ℕ → Option (ControlPacket × List ℕ)) (chip : Chip) (info : Info)
    (radio : Radio) (s : Session) (f : CsiFrame)
    → (frame_from_esp take_from_bytes chip info radio s).1 ≡ some f
    → (layout : LayoutId) × (f.payload
        ≡ CsiPayload.esp_raw chip layout info.first_word_invalid info.buf)
      × (length info.buf ≤ max_csi_bytes)
      × ((layout ≡ LayoutId.unknown) ⊎ (length info.buf ≡ 2 * length (indices layout)))
unfolding frame_from_esp
frame_from_esp-layout take_from_bytes chip info radio s f h =
    elim (Bool-cases (ltb max_csi_bytes (length info.buf))) [
      | inl large ↦
          let e : (frame_from_esp take_from_bytes chip info radio s).1 ≡ none = rw large refl in cc
      | inr fits ↦
          let layout : LayoutId =
            (rx_meta info radio (widen_timestamp (info.timestamp_us % 2 ^ 32) s).1).1 in
          let built : payload_of (frame_from_esp take_from_bytes chip info radio s).1
              ≡ some (CsiPayload.esp_raw chip layout info.first_word_invalid info.buf) =
            rw (frame_from_esp, fits) refl in
          let same : some f.payload
              ≡ some (CsiPayload.esp_raw chip layout info.first_word_invalid info.buf) =
            ap payload_of (sym h) ∙ built in
          (
            layout,
            cc,
            ground arith,
            lists_pairs (length info.buf) layout (rx_meta-IsFitting info radio _),
          )
    ]
