-- ===== src/Delivery/Tests.antt =====
-- tests
use esp_csi_rs.Base.{
  ℕ, zero, suc, ◌+◌, ◌%◌, ◌^◌, ◌≤◌, ◌≡◌, refl, Bool, true, false, ◌&&◌, ◌||◌, Option, none, some,
  List, [], ◌∷◌, ◌++◌, length, take, drop, arith,
}
use esp_csi_rs.Mac.{zero_mac, mac_eq}
use esp_csi_rs.Wire.{Chip}
use esp_csi_rs.Model.{ReportTo, Reporting, reports}
use esp_csi_rs.Protocol.{ControlPacket}
use esp_csi_rs.Session.{boot}
use esp_csi_rs.Packet.{CsiPacket}
use esp_csi_rs.Stats.{new_stats}
use esp_csi_rs.Esp.{Radio}
use esp_csi_rs.Delivery.{
  new_delivery, set_csi_min_sig_mode, set_csi_peer_filter, csi_passes_filter, runtime_reporting,
  set_runtime_reporting,
}
use esp_csi_rs.Delivery.Capture.{Node, capture_csi_info, queue_slots}
use esp_csi_rs.Delivery.Gate.{
  in_force, mode_wanted, runtime_reporting-set_runtime_reporting, csi_passes_filter_lem,
}
use esp_csi_rs.Delivery.Asked.{Call, run}
use esp_csi_rs.Delivery.Queue.{Stands, deliver_all, excess, deliver_all-newest, deliver_all-oldest}
use esp_csi_rs.Delivery.Paths.{capture_csi_info-one}
use esp_csi_rs.Samples.{board, peer, board-IsMac, peer-IsMac, device, packet, captured, legacy}

abbrev some_calls : List Call
some_calls =
    Call.reporting (Reporting.report ReportTo.host)
    ∷ Call.register 0x4200
    ∷ Call.output_enabled false
    ∷ Call.peer_filter peer
    ∷ Call.output_enabled true
    ∷ []

runtime_reporting-set_runtime_reporting_example :
    (runtime_reporting (set_runtime_reporting (Reporting.decimate 0) new_delivery)
      ≡ in_force (Reporting.decimate 0))
    × ((set_runtime_reporting (Reporting.decimate 0) new_delivery).reports
        ≡ reports (Reporting.decimate 0))
runtime_reporting-set_runtime_reporting_example =
    runtime_reporting-set_runtime_reporting (Reporting.decimate 0) new_delivery

csi_passes_filter_example :
    csi_passes_filter board
      (some 1)
      (set_csi_min_sig_mode 1 (set_csi_peer_filter peer new_delivery))
    ≡ ((mac_eq peer zero_mac || mac_eq board peer) && mode_wanted (some 1) 1)
csi_passes_filter_example =
    csi_passes_filter_lem peer board 1 (some 1) new_delivery peer-IsMac board-IsMac

-- A postcard reader that finds nothing.
abbrev nothing_read : List ℕ → Option (ControlPacket × List ℕ)
nothing_read bytes = none

-- A node that reports to the callback at 0x4200.
abbrev with_callback : Node
with_callback = record { delivery = run some_calls new_delivery; stats = new_stats; session = boot }

capture_csi_info-one_example :
    ((capture_csi_info nothing_read device 50 captured
        (Radio.classic legacy)
        with_callback).0.stats.rx_count
      ≡ (with_callback.stats.rx_count + 1) % 2 ^ 64)
    × (length
          (capture_csi_info nothing_read device 50 captured (Radio.classic legacy) with_callback).1
        ≤ 1)
capture_csi_info-one_example =
    capture_csi_info-one nothing_read device 50 captured (Radio.classic legacy) with_callback

-- The numbers from `i` on as packets.
abbrev burst : ℕ → ℕ → List CsiPacket
burst zero i = []
burst (suc n) i = packet i ∷ burst n (i + 1)

-- An async node with 31 packets queued, under either overflow policy.
abbrev async_node : Bool → Node
async_node drop_oldest = record {
  delivery = record new_delivery {
    csi_delivery_mode = 2;
    overflow_drop_oldest = drop_oldest;
    csi_queue = burst 31 0;
  };
  stats = new_stats;
  session = boot;
}

deliver_all-newest_example :
    Stands false
      (take queue_slots (burst 31 0 ++ burst 3 31))
      (0 + excess (burst 31 0 ++ burst 3 31))
      (deliver_all Chip.esp32_s3 (burst 3 31) (async_node false))
deliver_all-newest_example =
    deliver_all-newest Chip.esp32_s3 (burst 3 31) (burst 31 0) 0 (async_node false)
      (record { mode = refl; policy = refl; queue = refl; count = refl }) (omega arith)

deliver_all-oldest_example :
    Stands true
      (drop (excess (burst 31 0 ++ burst 3 31)) (burst 31 0 ++ burst 3 31))
      (0 + excess (burst 31 0 ++ burst 3 31))
      (deliver_all Chip.esp32_s3 (burst 3 31) (async_node true))
deliver_all-oldest_example =
    deliver_all-oldest Chip.esp32_s3 (burst 3 31) (burst 31 0) 0 (async_node true)
      (record { mode = refl; policy = refl; queue = refl; count = refl }) (omega arith)
