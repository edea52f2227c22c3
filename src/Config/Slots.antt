-- ===== src/Config/Slots.antt =====
-- The esp32c5's acquisition register behind the workaround.
use esp_csi_rs.Base.{ℕ, ◌≡◌, refl, ◌∙◌, List, [], ◌∷◌}
use esp_csi_rs.Config.{AxConfig, Ax5Config, as_u32, c5_bitfield_workaround}

-- The fields in the esp32c6's order.
abbrev pub ax6_order : AxConfig → List ℕ
ax6_order c =
    c.enable ∷ c.acquire_csi_legacy ∷ c.acquire_csi_ht20 ∷ c.acquire_csi_ht40 ∷ c.acquire_csi_su
    ∷ c.acquire_csi_mu ∷ c.acquire_csi_dcm ∷ c.acquire_csi_beamformed ∷ c.acquire_csi_he_stbc
    ∷ c.val_scale_cfg ∷ c.dump_ack_en ∷ c.reserved ∷ 0 ∷ 0 ∷ 0 ∷ []

-- The slots of the esp32c5's `wifi_csi_acquire_config_t` that ask for `want`, with the three last
-- ones and the ACK dump at 0.
abbrev pub ax5_slots : Ax5Config → List ℕ
ax5_slots want =
    want.shared.enable
    ∷ want.shared.acquire_csi_legacy
    ∷ as_u32 want.acquire_csi_force_lltf
    ∷ want.shared.acquire_csi_ht20
    ∷ want.shared.acquire_csi_ht40
    ∷ as_u32 want.acquire_csi_vht
    ∷ want.shared.acquire_csi_su
    ∷ want.shared.acquire_csi_mu
    ∷ want.shared.acquire_csi_dcm
    ∷ want.shared.acquire_csi_beamformed
    ∷ want.shared.acquire_csi_he_stbc
    ∷ want.shared.val_scale_cfg
    ∷ 0
    ∷ 0
    ∷ 0
    ∷ []

-- If esp-radio writes the fields of an acquisition in the esp32c6's order, with 0 behind them,
-- what it writes for the workaround's output is what the esp32c5's own order asks for, with the
-- ACK dump and the last two slots at 0.
c5_bitfield_workaround-slots :
    (pack : Ax5Config → List ℕ) (want : Ax5Config)
    → ((c : Ax5Config) → pack c ≡ ax6_order c.shared)
    → pack (c5_bitfield_workaround want) ≡ ax5_slots want
unfolding c5_bitfield_workaround
c5_bitfield_workaround-slots pack want packs = packs (c5_bitfield_workaround want) ∙ refl
