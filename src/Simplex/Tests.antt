-- ===== src/Simplex/Tests.antt =====
-- tests
use esp_csi_rs.Base.{
  ℕ, ◌+◌, ◌*◌, ◌≤◌, ◌≡◌, refl, true, false, none, some, List, [], ◌∷◌, length, All, arith,
}
use esp_csi_rs.Mac.{Mac}
use esp_csi_rs.EspNow.{SendResult, default_config}
use esp_csi_rs.Protocol.{parse_with_magic}
use esp_csi_rs.Stats.{new_stats}
use esp_csi_rs.Pool.{new_pool}
use esp_csi_rs.Initiator.{Sending}
use esp_csi_rs.Initiator.Numbers.{IsNumbered}
use esp_csi_rs.Samples.{peer, driver, read_control, write_control, frame}
use esp_csi_rs.Simplex.{
  Source, SourcePhase, Round, Peer, PeerRound, Sent, Wake, beacon_period_us, start_peer, discover,
  flood_all, peer_all,
}
use esp_csi_rs.Simplex.Beacons.{last_us, peer_all-spaced}
use esp_csi_rs.Simplex.Flood.{flood_all-discover}

abbrev searching : Source (List Mac)
searching = record {
  phase = SourcePhase.discovering;
  seq = 0;
  healthcheck = 0;
  next_tx_us = 0;
  driver = [];
  stats = new_stats;
}

abbrev round : SendResult → Round
round r = record { stop = false; stop_backoff = false; stop_cap = false; result = r; now_us = 9 }

abbrev rounds : List Round
rounds = round SendResult.sent ∷ round SendResult.busy ∷ round SendResult.sent ∷ []

abbrev hears : Source (List Mac)
hears =
    (discover driver false default_config read_control write_control (λ u n. none)
      (frame peer (0xF0 ∷ 0x2B ∷ 0x91 ∷ 0xA8 ∷ 1 ∷ 0 ∷ [])) 7 searching).0

abbrev flooded : Source (List Mac) × List Sending
flooded =
    flood_all driver false default_config read_control write_control (λ u n. none) none rounds hears

flood_all-discover_example :
    All (λ (x : Sending). x.dest ≡ peer) flooded.1 × IsNumbered false 0 flooded.1
unfolding parse_with_magic
flood_all-discover_example =
    flood_all-discover driver false default_config read_control write_control (λ u n. none) none
      (frame peer (0xF0 ∷ 0x2B ∷ 0x91 ∷ 0xA8 ∷ 1 ∷ 0 ∷ [])) 7 rounds searching refl refl

abbrev waits : ℕ → PeerRound
waits t = record { now_us = t; sent_us = t + 100; wake = Wake.deadline }

abbrev clock : List PeerRound
clock = waits 1000 ∷ waits 400_000 ∷ waits 1_200_000 ∷ []

abbrev beaconed : Peer × List Sent
beaconed =
    peer_all default_config true (λ l. some (tt, l)) write_control clock
      (start_peer default_config 1000 new_pool new_stats)

peer_all-spaced_example :
    length beaconed.1 * beacon_period_us + 1000 ≤ last_us 1000 clock + beacon_period_us
peer_all-spaced_example =
    peer_all-spaced default_config true (λ l. some (tt, l)) write_control 1000 clock new_pool
      new_stats
      (((omega arith, omega arith)), ((omega arith, omega arith), ((omega arith, omega arith), tt)))
