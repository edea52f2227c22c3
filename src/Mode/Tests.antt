-- ===== src/Mode/Tests.antt =====
-- Examples on the modes.
use esp_csi_rs.Base.{ℕ, ◌≡◌, refl, [], ◌∷◌, none, some}
use esp_csi_rs.Model.{SensingRole, SessionRole}
use esp_csi_rs.Mode.{
  Ipv4Addr, Mode, WifiApConfig, lease_ip_at, lease_pool, leases_from, new_ap, new_station,
  sensing_role, session_role, station_session, with_ipv4, with_lease_pool,
}

abbrev address : ℕ → Ipv4Addr
address o = record { o0 = 10; o1 = 0; o2 = 0; o3 = o }

abbrev three_leases : WifiApConfig
three_leases = with_lease_pool 3 (with_ipv4 (address 1) (address 2) (new_ap 6 none))

abbrev last_leases : WifiApConfig
last_leases = with_lease_pool 3 (with_ipv4 (address 1) (address 254) (new_ap 6 none))

three_test : lease_pool three_leases ≡ address 2 ∷ address 3 ∷ address 4 ∷ []
unfolding lease_pool leases_from lease_ip_at
three_test = refl

last_test : lease_pool last_leases ≡ address 254 ∷ address 255 ∷ address 255 ∷ []
unfolding lease_pool leases_from lease_ip_at
last_test = refl

silent_station_test :
    sensing_role (Mode.station (station_session none new_station)) ≡ SensingRole.receiver
unfolding sensing_role
silent_station_test = refl

access_point_test : session_role (Mode.access_point three_leases) ≡ some SessionRole.initiator
unfolding session_role
access_point_test = refl
