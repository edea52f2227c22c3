-- ===== src/Stats/Tests.antt =====
-- tests
use esp_csi_rs.Base.{
  ◌+◌, ◌%◌, ◌^◌, ◌≡◌, refl, true, false, none, some, List, [], ◌∷◌, length, arith,
}
use esp_csi_rs.Samples.{board, peer}
use esp_csi_rs.Stats.{TxStats, touch, gap_before, Cause, new_stats, get_drop_breakdown}
use esp_csi_rs.Stats.Run.{Event, run}
use esp_csi_rs.Stats.Losses.{losses, run-losses}
use esp_csi_rs.Stats.Table.{IsTable, IsTable-run}
use esp_csi_rs.Stats.Gaps.{Heard, Follows, heard, total_gap, latest, total_gap-heard, touch-resync}

abbrev some_events : List Event
some_events =
    Event.received
    ∷ Event.frame board (some 10) none
    ∷ Event.frame peer (some 100) (some true)
    ∷ Event.frame board (some 14) none
    ∷ Event.loss Cause.queue_full 1
    ∷ Event.filtered
    ∷ []

run-losses_example :
    (run some_events new_stats).rx_drop_count
    ≡ losses (get_drop_breakdown 9 (run some_events new_stats)) % 2 ^ 32
run-losses_example = run-losses some_events 9

IsTable-run_example : IsTable (run some_events new_stats).per_tx
IsTable-run_example = IsTable-run some_events

-- The entry after the frame 4094.
abbrev in_step : TxStats
in_step = record {
  mac = peer;
  frames = 1;
  seq_gaps = 0;
  retries = 0;
  last_seq = 4094;
  last_used = 0;
  resync = false;
}

-- Frames 4095 and 4100 with a retransmission between them; the number wraps at 4096.
abbrev heard_frames : List Heard
heard_frames = Heard.frame 4095 ∷ Heard.repeated 4095 ∷ Heard.frame 4100 ∷ []

in_step-Follows : Follows 4094 (length heard_frames) in_step
in_step-Follows = record { last = refl; synced = refl; seen = omega arith; few = omega arith }

total_gap-heard_example :
    heard heard_frames + (total_gap 1 heard_frames in_step + 4094) ≡ latest 4094 heard_frames
total_gap-heard_example =
    total_gap-heard heard_frames 1 4094 in_step in_step-Follows
      (omega arith, omega arith, (omega arith, omega arith, tt))

-- The entry after the frame 4094 and an output toggle.
abbrev marked_entry : TxStats
marked_entry = record in_step { resync = true }

touch-resync_example :
    ((touch 1 (some 100) (some false) marked_entry).1 ≡ 0)
    × ((touch (1 + 1) (some 100) (some false) (touch 1 (some 99) (some true) marked_entry).0).1
        ≡ gap_before false marked_entry.last_seq 100)
touch-resync_example = touch-resync 1 99 100 marked_entry (omega arith) (omega arith) refl
