-- ===== src/Mac/Tests.antt =====
-- tests
use esp_csi_rs.Base.{◌≡◌}
use esp_csi_rs.Mac.{pack_mac, unpack_mac}
use esp_csi_rs.Mac.Pack.{unpack_mac-pack_mac}
use esp_csi_rs.Samples.{board, board-IsMac}

unpack_mac-pack_mac_example : unpack_mac (pack_mac board) ≡ board
unpack_mac-pack_mac_example = unpack_mac-pack_mac board board-IsMac
