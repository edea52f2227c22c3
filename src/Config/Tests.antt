-- ===== src/Config/Tests.antt =====
-- Examples on the acquisition.
use esp_csi_rs.Base.{◌≡◌, refl, some}
use esp_csi_rs.Config.{
  Build, CsiConfig, c5_bitfield_workaround, default_ax, default_ax5, he20_ax, he20_csi,
}
use esp_csi_rs.Config.Slots.{ax5_slots, ax6_order}

default_slots_test : ax6_order (c5_bitfield_workaround default_ax5).shared ≡ ax5_slots default_ax5
unfolding c5_bitfield_workaround
default_slots_test = refl

he20_test : he20_csi Build.ax6 ≡ some (CsiConfig.ax6 (he20_ax (default_ax 19)))
unfolding he20_csi
he20_test = refl
