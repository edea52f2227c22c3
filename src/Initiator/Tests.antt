-- ===== src/Initiator/Tests.antt =====
-- tests
use esp_csi_rs.Pacing.{Turn}
use esp_csi_rs.Base.{
  ℕ, ◌%◌, ◌^◌, ◌≡◌, refl, true, false, Option, none, some, List, [], ◌∷◌, replicate, arith,
}
use esp_csi_rs.Mac.{Mac}
use esp_csi_rs.EspNow.{IoTaskConfig, SendResult, default_config}
use esp_csi_rs.Protocol.{responder_magic_number, to_le_bytes, parse_with_magic}
use esp_csi_rs.Session.{boot}
use esp_csi_rs.Stats.{new_stats}
use esp_csi_rs.Pool.{PoolFrame, new_pool}
use esp_csi_rs.Samples.{board, peer, driver, write_control, frame}
use esp_csi_rs.Initiator.{Initiator, Sending, knows, downlink_target, is_reply, start, run}
use esp_csi_rs.Initiator.Peers.{distinct, repliers, handle_all, downlink_target-heard}
use esp_csi_rs.Initiator.Numbers.{IsNumbered, sent_count, failed_count, run-IsNumbered}

-- An empty beacon.
abbrev read_beacon : List ℕ → Option (Unit {0} × List ℕ)
read_beacon bytes = some (tt, bytes)

abbrev both : IoTaskConfig
both = record { tx_enabled = true; rx_enabled = true }

abbrev fresh : Initiator (List Mac)
unfolding start
fresh =
    start driver false false default_config read_beacon write_control true (some 100) both 0
      new_pool boot new_stats []

abbrev beacon_of : Mac → PoolFrame
beacon_of m = frame m (to_le_bytes responder_magic_number)

abbrev from_one : List PoolFrame
from_one = beacon_of peer ∷ frame board (1 ∷ 2 ∷ []) ∷ beacon_of peer ∷ []

abbrev repliers_of : List PoolFrame → List Mac
repliers_of = repliers driver false false default_config read_beacon write_control true

abbrev heard : List PoolFrame → Initiator (List Mac)
heard fs = handle_all driver false false default_config read_beacon write_control true fs fresh

downlink_target-heard_example : downlink_target none (heard from_one).known_peers ≡ peer
unfolding repliers distinct is_reply parse_with_magic fresh start knows
downlink_target-heard_example =
    downlink_target-heard driver false false default_config read_beacon write_control true from_one
      fresh refl (omega arith)

abbrev crowded : Initiator (List Mac)
crowded = record fresh { known_peers = replicate 16 board }

-- A pass in which the packet is due, and what becomes of it.
abbrev turn : SendResult → Turn
turn r = record {
  guard_us = λ k. 0;
  now_us = λ k. 90_000;
  result = λ k. r;
  arrivals = [];
  stop = false;
}

abbrev turns : List Turn
turns = turn SendResult.sent ∷ turn SendResult.busy ∷ turn SendResult.sent ∷ []

abbrev sends : Initiator (List Mac) × List Sending
sends = run driver false false default_config read_beacon write_control true both turns (
    start driver false false default_config read_beacon write_control true (some 100) both 0
      new_pool boot new_stats [])

run-IsNumbered_example :
    IsNumbered true 0 sends.1
    × ((sends.0.tx_queued_count ≡ sent_count sends.1 % 2 ^ 64)
        × (sends.0.tx_failed_count ≡ failed_count sends.1 % 2 ^ 64))
run-IsNumbered_example =
    run-IsNumbered driver false false default_config read_beacon write_control true (some 100) both
      0 new_pool boot new_stats [] turns
