-- ===== src/Dhcp/Serving.antt =====
-- The server over any datagrams.
use esp_csi_rs.Base.{
  ℕ, zero, suc, ◌≡◌, refl, sym, ap, ◌∙◌, subst, true, Option, none, some, List, [], ◌∷◌, All,
  if-true, if-false, Bool-cases, inl, inr,
}
use mathlib.Core.Option.{some-injective}
use esp_csi_rs.Mac.{Mac, mac_eq}
use esp_csi_rs.Mode.{Ipv4Addr, WifiApConfig, lease_pool}
use esp_csi_rs.Dhcp.{
  DhcpBinding, DhcpReply, DhcpRequest, ReplyKind, Server, Slots, answer_with, is_listed, ip_eq,
  new_server, on_request, reply_type, serve_all,
}
use esp_csi_rs.Dhcp.Slots.{addresses, find_in, slots_of}
use esp_csi_rs.Dhcp.Leases.{Owned-same}
use esp_csi_rs.Dhcp.Table.{All-map, IsServing, dhcp_assign_ip-IsServing}

module _ (parse : List ℕ → Option DhcpRequest) (config : WifiApConfig) where
  answer_with-IsServing :
      (req : DhcpRequest) (s : Server) (o : Option ReplyKind)
      → IsServing config s
      → IsServing config (answer_with config req s o)
  answer_with-IsServing req s none h = h
  answer_with-IsServing req s (some kind) h = dhcp_assign_ip-IsServing config kind req s h

  on_request-IsServing :
      (o : Option DhcpRequest) (s : Server)
      → IsServing config s
      → IsServing config (on_request parse config o s)
  on_request-IsServing none s h = h
  on_request-IsServing (some req) s h = answer_with-IsServing req s (reply_type req.kind) h

  serve_all-IsServing :
      (ds : List (Option (List ℕ))) (s : Server)
      → IsServing config s
      → IsServing config (serve_all parse config ds s)
  unfolding serve_all
  serve_all-IsServing [] s h = h
  serve_all-IsServing (none ∷ ds) s h = serve_all-IsServing ds s h
  serve_all-IsServing (some bytes ∷ ds) s h =
      serve_all-IsServing ds (on_request parse config (parse bytes) s)
        (on_request-IsServing (parse bytes) s h)

new_server-IsServing : (config : WifiApConfig) → IsServing config new_server
new_server-IsServing config = record {
  bs = [];
  k = 8;
  clients = refl;
  room = refl;
  active = refl;
  owned = λ m k ip p q. cc;
  pool = tt;
  told = tt;
}

-- The addresses in the slots, in order.
abbrev pub bound : Slots → List Ipv4Addr
bound [] = []
bound (none ∷ slots) = bound slots
bound (some b ∷ slots) = b.ip ∷ bound slots

bound-free : (k : ℕ) → bound (slots_of [] k) ≡ []
bound-free zero = refl
bound-free (suc k) = bound-free k

bound-slots_of : (bs : List DhcpBinding) (k : ℕ) → bound (slots_of bs k) ≡ addresses bs
bound-slots_of [] k = bound-free k
bound-slots_of (b ∷ bs) k = ap (λ l. b.ip ∷ l) (bound-slots_of bs k)

find_in-in_pool :
    (mac : Mac) (bs : List DhcpBinding) (pool : List Ipv4Addr) (ip : Ipv4Addr)
    → All (λ (b : DhcpBinding). is_listed b.ip pool ≡ true) bs
    → find_in mac bs ≡ some ip
    → is_listed ip pool ≡ true
find_in-in_pool mac [] pool ip all e = cc
find_in-in_pool mac (b ∷ bs) pool ip all e = elim (Bool-cases (mac_eq b.mac mac)) [
  | inl same ↦
      subst (λ a. is_listed a pool ≡ true)
        (some-injective _ _ (sym (if-true {b = mac_eq b.mac mac} _ _ same) ∙ e)) all.0
  | inr differ ↦
      find_in-in_pool mac bs pool ip all.1 (sym (if-false {b = mac_eq b.mac mac} _ _ differ) ∙ e)
]

-- On a device that has not served before, whatever datagrams arrive and whatever the codec reads
-- in them: two replies carry the same address exactly if they go to the same client, each address
-- is in the lease pool, and the active leases are the addresses of the bindings in the order of
-- their slots.
pub serve_all-leases :
    (parse : List ℕ → Option DhcpRequest) (config : WifiApConfig) (ds : List (Option (List ℕ)))
    → let s = serve_all parse config ds new_server in
      All
        (λ (r : DhcpReply).
          All
            (λ (q : DhcpReply).
              ip_eq r.your_ip q.your_ip
              ≡ mac_eq r.client_hardware_address q.client_hardware_address)
            s.replies)
        s.replies
      × All (λ (r : DhcpReply). is_listed r.your_ip (lease_pool config) ≡ true) s.replies
      × (s.active ≡ bound s.clients)
serve_all-leases parse config ds =
    let s : Server = serve_all parse config ds new_server in
    let h = serve_all-IsServing parse config ds new_server (new_server-IsServing config) in
    (
      All-map _ _
          (λ r e.
            All-map _ _
              (λ q f.
                Owned-same h.bs r.client_hardware_address q.client_hardware_address r.your_ip
                  q.your_ip h.owned e f)
              s.replies h.told)
          s.replies h.told,
      All-map _ _
          (λ r e.
            find_in-in_pool r.client_hardware_address h.bs (lease_pool config) r.your_ip h.pool e)
          s.replies h.told,
      h.active ∙ sym (ap bound h.clients ∙ bound-slots_of h.bs h.k),
    )
