-- ===== src/Responder/Tests.antt =====
-- tests
use esp_csi_rs.Pacing.{new_pacing, Turn}
use esp_csi_rs.Base.{ℕ, ◌+◌, ◌≤◌, ◌≡◌, refl, true, false, none, List, [], ◌∷◌, length, All, arith}
use esp_csi_rs.Mac.{Mac}
use esp_csi_rs.EspNow.{IoTaskConfig, SendResult}
use esp_csi_rs.Protocol.{ControlPacket, parse_with_magic}
use esp_csi_rs.Session.{boot}
use esp_csi_rs.Stats.{new_stats}
use esp_csi_rs.Delivery.{new_delivery}
use esp_csi_rs.Pool.{PoolFrame, new_pool}
use esp_csi_rs.Samples.{board, peer, driver, paired, read_control, frame}
use esp_csi_rs.Responder.{Responder, mac_to_u64, u64_to_mac, zero_diagnostics, new_shared}
use esp_csi_rs.Responder.Run.{IsLocked, packets_from, ingest_all}
use esp_csi_rs.Responder.Promote.{ingest_all-promoted, promoted}
use esp_csi_rs.Responder.Sequence.{ingest_all-counted}
use esp_csi_rs.Responder.Loop.{Task, Reply, run}
use esp_csi_rs.Responder.Replies.{run-replies, heard, owed, target}

-- A responder that is paired with the peer and reports nothing.
abbrev quiet : Responder (List Mac)
unfolding new_shared
quiet = record {
  raw_listen = false;
  shared = new_shared paired false;
  diagnostics = zero_diagnostics;
  session = boot;
  delivery = new_delivery;
  driver = [];
}

quiet-IsLocked : IsLocked peer quiet
unfolding new_shared u64_to_mac mac_to_u64
quiet-IsLocked = record { listening = refl; connected = refl; initiator = refl }

-- Packets of the peer that announces that it reports nothing, and one of another node.
abbrev frames : List PoolFrame
frames =
    frame peer (0 ∷ 10 ∷ [])
    ∷ frame peer (0 ∷ 11 ∷ [])
    ∷ frame board (1 ∷ 3 ∷ [])
    ∷ frame peer (0 ∷ 14 ∷ [])
    ∷ []

abbrev after : Responder (List Mac)
after = ingest_all driver false false paired read_control true frames quiet

ingest_all-promoted_example :
    ((after.shared.reports ≡ true) × (after.delivery ≡ promoted false true quiet.delivery))
    × IsLocked peer after
unfolding packets_from parse_with_magic quiet
ingest_all-promoted_example =
    ingest_all-promoted driver false false paired read_control true peer frames quiet quiet-IsLocked
      refl

abbrev packet : ℕ → ControlPacket
packet n = record { initiator_reports = false; sequence_number = n }

ingest_all-counted_example :
    (after.diagnostics.rx_control_packet_count ≡ 3)
    × (after.diagnostics.rx_control_packet_count + after.diagnostics.rx_sequence_miss_count + 10
        ≡ 15)
unfolding packets_from parse_with_magic quiet
ingest_all-counted_example =
    ingest_all-counted driver false false paired read_control true peer (packet 10)
      (packet 11 ∷ packet 14 ∷ []) frames quiet quiet-IsLocked refl refl refl refl
      (omega arith, (omega arith, (omega arith, (omega arith, tt))))

abbrev task : Task (List Mac)
task = record {
  responder = quiet;
  pool = new_pool;
  pacing = new_pacing 100 true 0;
  stats = new_stats;
}

-- A pass in which a packet of the peer arrives and the reply is due, and one without a packet.
abbrev turn : ℕ → Turn
turn n = record {
  guard_us = λ k. 0;
  now_us = λ k. 20_000;
  result = λ k. SendResult.sent;
  arrivals = (peer, 1 ∷ n ∷ []) ∷ [];
  stop = false;
}

abbrev idle : Turn
idle = record {
  guard_us = λ k. 0;
  now_us = λ k. 90_000;
  result = λ k. SendResult.sent;
  arrivals = [];
  stop = false;
}

abbrev both : IoTaskConfig
both = record { tx_enabled = true; rx_enabled = true }

abbrev exchanged : Task (List Mac) × List Reply
exchanged =
    run driver false false paired read_control (λ u n. none) both (turn 5 ∷ idle ∷ turn 6 ∷ []) task

run-replies_example :
    (length exchanged.1 + heard task ≤ heard exchanged.0 + owed task)
    × All
        (λ (r : Reply). r.dest ≡ target driver false false paired read_control (λ u n. none) peer)
        exchanged.1
unfolding quiet
run-replies_example =
    run-replies driver false false paired read_control (λ u n. none) peer true
      (turn 5 ∷ idle ∷ turn 6 ∷ []) task quiet-IsLocked (omega arith)
