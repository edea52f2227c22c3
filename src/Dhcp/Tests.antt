-- ===== src/Dhcp/Tests.antt =====
-- Examples on the leases.
use esp_csi_rs.Base.{
  ℕ, ◌≡◌, refl, true, ◌==◌, if◌then◌else◌, Option, none, some, List, [], ◌∷◌, All,
}
use esp_csi_rs.Mac.{Mac, mac_eq}
use esp_csi_rs.Mode.{
  Ipv4Addr, WifiApConfig, lease_ip_at, lease_pool, new_ap, with_ipv4, with_lease_pool,
}
use esp_csi_rs.Dhcp.{
  DhcpReply, DhcpRequest, MessageKind, assign_from, dhcp_assign_ip, ip_eq, is_listed, new_server,
  serve_all,
}
use esp_csi_rs.Dhcp.Serving.{bound, serve_all-leases}

abbrev address : ℕ → Ipv4Addr
address o = record { o0 = 192; o1 = 168; o2 = 13; o3 = o }

-- Three leases, of which the last two are one address.
abbrev last_three : WifiApConfig
last_three = with_lease_pool 3 (with_ipv4 (address 1) (address 254) (new_ap 6 none))

abbrev client : ℕ → Mac
client n = record { b0 = 0x24; b1 = 0; b2 = 0; b3 = 0; b4 = 0; b5 = n }

-- In smoltcp's place: the type, the transaction and the last byte of the client's address.
abbrev read_request : List ℕ → Option DhcpRequest
read_request (code ∷ id ∷ n ∷ []) = some (record {
  kind =
      if code == 1
      then MessageKind.discover
      else if code == 3
      then MessageKind.request
      else MessageKind.other;
  transaction_id = id;
  client_hardware_address = client n;
})
read_request _ = none

abbrev datagrams : List (Option (List ℕ))
datagrams =
    some (1 ∷ 7 ∷ 1 ∷ [])
    ∷ none
    ∷ some (1 ∷ 8 ∷ 2 ∷ [])
    ∷ some (3 ∷ 7 ∷ 1 ∷ [])
    ∷ some (9 ∷ [])
    ∷ some (1 ∷ 9 ∷ 3 ∷ [])
    ∷ []

-- The third client gets nothing: its only address left is the second one's.
active_test :
    (serve_all read_request last_three datagrams new_server).active ≡ address 254 ∷ address 255 ∷ []
unfolding serve_all dhcp_assign_ip assign_from lease_ip_at
active_test = refl

serve_all-leases_example :
    let s = serve_all read_request last_three datagrams new_server in
    All
      (λ (r : DhcpReply).
        All
          (λ (q : DhcpReply).
            ip_eq r.your_ip q.your_ip ≡ mac_eq r.client_hardware_address q.client_hardware_address)
          s.replies)
      s.replies
    × All (λ (r : DhcpReply). is_listed r.your_ip (lease_pool last_three) ≡ true) s.replies
    × (s.active ≡ bound s.clients)
serve_all-leases_example = serve_all-leases read_request last_three datagrams
