-- ===== src/Station/Tests.antt =====
-- Examples on the station.
use esp_csi_rs.Base.{◌≡◌, refl, true, false, List, [], ◌∷◌}
use esp_csi_rs.Config.{Build, CsiConfig, default_csi}
use esp_csi_rs.EspNow.{IoTaskConfig}
use esp_csi_rs.Station.{
  Action, Connect, Outcome, Wait, connect_loop, reconnect, run_sta_connect, sta_connection,
}
use esp_csi_rs.Station.Armed.{IsArmed, run_sta_connect-IsArmed}

abbrev csi : CsiConfig
csi = default_csi Build.classic

abbrev receiver : IoTaskConfig
receiver = record { tx_enabled = true; rx_enabled = true }

abbrev sender : IoTaskConfig
sender = record { tx_enabled = true; rx_enabled = false }

abbrev second_try : List (Connect × Wait)
second_try = (Connect.timed_out, Wait.over) ∷ (Connect.connected, Wait.over) ∷ []

-- A failed attempt registers the CSI callback although RX is disabled.
sender_test :
    run_sta_connect csi sender Wait.over second_try
    ≡ Outcome.associated (Action.disconnect ∷ Action.set_csi csi ∷ [])
unfolding run_sta_connect connect_loop
sender_test = refl

receiver_test :
    sta_connection csi receiver ((Wait.over, second_try) ∷ (Wait.stop, []) ∷ [])
    ≡ Action.set_csi csi ∷ Action.signal_stop ∷ []
unfolding sta_connection reconnect
receiver_test = refl

run_sta_connect-IsArmed_example :
    IsArmed csi (run_sta_connect csi receiver Wait.over second_try)
    × IsArmed csi (reconnect csi receiver second_try)
run_sta_connect-IsArmed_example =
    run_sta_connect-IsArmed csi receiver Wait.over second_try second_try refl
