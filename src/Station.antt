-- ===== src/Station.antt =====
-- src/lib/wifi/sta.rs: the association of a station, and its recovery after a disconnect.
-- The driver's answers and the waits are the events of a round; what the code does to the driver is a
-- list of actions. A stop puts the signal back for the other tasks and returns.
pub mod Armed
mod Tests
use esp_csi_rs.Base.{
  ℕ, zero, suc, ◌+◌, min, Bool, true, false, Option, none, some, List, [], ◌∷◌, ◌++◌, leb,
  if◌then◌else◌,
}
use esp_csi_rs.Config.{CsiConfig}
use esp_csi_rs.EspNow.{IoTaskConfig}

-- The `select` of the stop signal with `connect_async`, under its timeout.
pub data Connect : Type 0 where
  stopped connected failed timed_out : Connect

-- The `select` of the stop signal with a timer or with `wait_for_disconnect_async`.
pub data Wait : Type 0 where
  stop over : Wait

pub data Action : Type 0 where
  set_csi : CsiConfig → Action
  disconnect signal_stop : Action

abbrev pub failures_before_radio_cycle : ℕ
failures_before_radio_cycle = 1

-- How the loop of `run_sta_connect` ends, with its actions: associated, stopped, or still at it where
-- the events end.
pub data Outcome : Type 0 where
  associated was_stopped waiting : List Action → Outcome

abbrev pub behind : List Action → Outcome → Outcome
behind done (Outcome.associated bs) = Outcome.associated (done ++ bs)
behind done (Outcome.was_stopped bs) = Outcome.was_stopped (done ++ bs)
behind done (Outcome.waiting bs) = Outcome.waiting (done ++ bs)

abbrev pub arm : CsiConfig → Bool → List Action
arm csi rx_enabled = if rx_enabled then set_csi csi ∷ [] else []

module _ (csi : CsiConfig) (io : IoTaskConfig) where
  -- The recovery behind a failed attempt: the actions, and the count.
  abbrev pub recover : ℕ → List Action × ℕ
  recover failures =
      let count = min (failures + 1) 255 in
      if leb failures_before_radio_cycle count
      then (disconnect ∷ set_csi csi ∷ [], 0)
      else (disconnect ∷ [], count)

  -- The `loop` over the attempts, each with the wait that follows a failed one.
  unfoldable pub connect_loop : List (Connect × Wait) → ℕ → Outcome
  connect_loop [] failures = Outcome.waiting []
  connect_loop ((stopped, wait) ∷ rounds) failures = Outcome.was_stopped (signal_stop ∷ [])
  connect_loop ((connected, wait) ∷ rounds) failures = Outcome.associated (arm csi io.rx_enabled)
  connect_loop ((_, stop) ∷ rounds) failures =
      Outcome.was_stopped ((recover failures).0 ++ (signal_stop ∷ []))
  connect_loop ((_, over) ∷ rounds) failures =
      behind (recover failures).0 (connect_loop rounds (recover failures).1)

  -- `run_sta_connect` up to the join of its tasks, behind the first wait.
  unfoldable pub run_sta_connect : Wait → List (Connect × Wait) → Outcome
  unfolding connect_loop
  run_sta_connect stop rounds = Outcome.was_stopped (signal_stop ∷ [])
  run_sta_connect over rounds = connect_loop rounds 0

  -- The inner loop of `sta_connection`, and the actions of what follows it.
  unfoldable pub reconnect : List (Connect × Wait) → Outcome
  reconnect [] = Outcome.waiting []
  reconnect ((stopped, wait) ∷ rounds) = Outcome.was_stopped (signal_stop ∷ [])
  reconnect ((connected, wait) ∷ rounds) = Outcome.associated (arm csi io.rx_enabled)
  reconnect ((_, stop) ∷ rounds) = Outcome.was_stopped (signal_stop ∷ [])
  reconnect ((_, over) ∷ rounds) = reconnect rounds

  abbrev pub continue_with : Outcome → List Action → List Action
  continue_with (Outcome.associated done) rest = done ++ rest
  continue_with (Outcome.was_stopped done) rest = done
  continue_with (Outcome.waiting done) rest = done

  -- `sta_connection`: a disconnect, with the attempts that follow it, or the stop.
  unfoldable pub sta_connection : List (Wait × List (Connect × Wait)) → List Action
  unfolding reconnect
  sta_connection [] = []
  sta_connection ((stop, rounds) ∷ losses) = signal_stop ∷ []
  sta_connection ((over, rounds) ∷ losses) =
      continue_with (reconnect rounds) (sta_connection losses)
