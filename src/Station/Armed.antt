-- ===== src/Station/Armed.antt =====
-- CSI registration when a station associates.
use esp_csi_rs.Base.{ℕ, ◌≡◌, sym, ap, ◌∙◌, Bool, true, List, [], ◌∷◌, ◌++◌, if-true}
use mathlib.Core.List.{append_assoc}
use esp_csi_rs.Config.{CsiConfig}
use esp_csi_rs.EspNow.{IoTaskConfig}
use esp_csi_rs.Station.{
  Action, Connect, Outcome, Wait, behind, arm, connect_loop, reconnect, recover, run_sta_connect,
}

-- An association comes with this configuration as its last action.
abbrev pub IsArmed : CsiConfig → Outcome → Type 0
IsArmed csi (Outcome.associated done) =
    (before : List Action) × (done ≡ before ++ (Action.set_csi csi ∷ []))
IsArmed csi _ = Unit {0}

IsArmed-behind :
    (csi : CsiConfig) (done : List Action) (o : Outcome)
    → IsArmed csi o
    → IsArmed csi (behind done o)
IsArmed-behind csi done (Outcome.associated bs) h =
    (done ++ h.0, ap (λ l. done ++ l) h.1 ∙ sym (append_assoc done h.0 (Action.set_csi csi ∷ [])))
IsArmed-behind csi done (Outcome.was_stopped bs) h = tt
IsArmed-behind csi done (Outcome.waiting bs) h = tt

arm-IsArmed :
    (csi : CsiConfig) (rx : Bool) → rx ≡ true → IsArmed csi (Outcome.associated (arm csi rx))
arm-IsArmed csi rx on = ([], if-true {b = rx} _ _ on)

connect_loop-IsArmed :
    (csi : CsiConfig) (io : IoTaskConfig) (rounds : List (Connect × Wait)) (failures : ℕ)
    → io.rx_enabled ≡ true
    → IsArmed csi (connect_loop csi io rounds failures)
unfolding connect_loop
connect_loop-IsArmed csi io [] failures on = tt
connect_loop-IsArmed csi io ((Connect.stopped, w) ∷ rounds) failures on = tt
connect_loop-IsArmed csi io ((Connect.connected, w) ∷ rounds) failures on =
    arm-IsArmed csi io.rx_enabled on
connect_loop-IsArmed csi io ((Connect.failed, Wait.stop) ∷ rounds) failures on = tt
connect_loop-IsArmed csi io ((Connect.failed, Wait.over) ∷ rounds) failures on =
    IsArmed-behind csi (recover csi io failures).0
      (connect_loop csi io rounds (recover csi io failures).1)
      (connect_loop-IsArmed csi io rounds (recover csi io failures).1 on)
connect_loop-IsArmed csi io ((Connect.timed_out, Wait.stop) ∷ rounds) failures on = tt
connect_loop-IsArmed csi io ((Connect.timed_out, Wait.over) ∷ rounds) failures on =
    IsArmed-behind csi (recover csi io failures).0
      (connect_loop csi io rounds (recover csi io failures).1)
      (connect_loop-IsArmed csi io rounds (recover csi io failures).1 on)

reconnect-IsArmed :
    (csi : CsiConfig) (io : IoTaskConfig) (rounds : List (Connect × Wait))
    → io.rx_enabled ≡ true
    → IsArmed csi (reconnect csi io rounds)
unfolding reconnect
reconnect-IsArmed csi io [] on = tt
reconnect-IsArmed csi io ((Connect.stopped, w) ∷ rounds) on = tt
reconnect-IsArmed csi io ((Connect.connected, w) ∷ rounds) on = arm-IsArmed csi io.rx_enabled on
reconnect-IsArmed csi io ((Connect.failed, Wait.stop) ∷ rounds) on = tt
reconnect-IsArmed csi io ((Connect.failed, Wait.over) ∷ rounds) on =
    reconnect-IsArmed csi io rounds on
reconnect-IsArmed csi io ((Connect.timed_out, Wait.stop) ∷ rounds) on = tt
reconnect-IsArmed csi io ((Connect.timed_out, Wait.over) ∷ rounds) on =
    reconnect-IsArmed csi io rounds on

-- With RX enabled, however many attempts fail or time out before: where the station associates,
-- and where it associates again after a disconnect, the last thing done is to register CSI with
-- the run's configuration.
pub run_sta_connect-IsArmed :
    (csi : CsiConfig) (io : IoTaskConfig) (first : Wait) (rounds again : List (Connect × Wait))
    → io.rx_enabled ≡ true
    → IsArmed csi (run_sta_connect csi io first rounds) × IsArmed csi (reconnect csi io again)
unfolding run_sta_connect
run_sta_connect-IsArmed csi io Wait.stop rounds again on = (tt, reconnect-IsArmed csi io again on)
run_sta_connect-IsArmed csi io Wait.over rounds again on =
    (connect_loop-IsArmed csi io rounds 0 on, reconnect-IsArmed csi io again on)
