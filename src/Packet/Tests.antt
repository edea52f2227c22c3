-- ===== src/Packet/Tests.antt =====
-- tests
use esp_csi_rs.Base.{◌≡◌, refl, inl, true, false, List, [], ◌∷◌, map, if◌then◌else◌, length}
use esp_csi_rs.Wire.{SourceKind}
use esp_csi_rs.Session.{boot, begin_run}
use esp_csi_rs.Samples.{board-IsMac, device, measured}
use esp_csi_rs.Packet.Run.{Arrival, packets, stamp, stamps, packets-begin_run}

abbrev two_arrivals : List Arrival
two_arrivals =
    record { source = SourceKind.esp_vendor; frame = measured; now_us = 1000 }
    ∷ record { source = SourceKind.synthetic; frame = measured; now_us = 2000 }
    ∷ []

packets-begin_run_example :
    map stamp (packets device two_arrivals (begin_run device.base_mac 77 true false boot))
    ≡ stamps
        (if boot.session_pinned then boot.session_id else 77)
        device.base_mac
        (length two_arrivals)
        0
        true
packets-begin_run_example =
    packets-begin_run device 77 true false boot two_arrivals board-IsMac (inl refl)
