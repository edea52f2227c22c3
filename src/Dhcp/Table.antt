-- ===== src/Dhcp/Table.antt =====
-- The server's table behind one lease.
use esp_csi_rs.Base.{
  ℕ, zero, suc, ◌+◌, ◌<◌, ◌≡◌, refl, sym, ap, ◌∙◌, subst, true, false, Option, none, some, List, [],
  ◌∷◌, ◌++◌, length, length-append, All, if-true, if-false, arith, ltb,
}
use esp_csi_rs.Mac.{Mac, mac_eq}
use esp_csi_rs.Mode.{Ipv4Addr, WifiApConfig, lease_pool}
use esp_csi_rs.Dhcp.{
  DhcpBinding, DhcpReply, DhcpRequest, ReplyKind, Server, assign_from, assign_new, dhcp_assign_ip,
  find_binding, is_listed, lease, max_dhcp_clients, register,
}
use esp_csi_rs.Dhcp.Slots.{
  addresses, assign_from-full, assign_from-picked, find_binding-slots_of, find_in, free_address,
  picked, slots_of,
}
use esp_csi_rs.Dhcp.Leases.{
  Owned, Owned-append, addresses-append, find_in-append, find_in-is_listed, length-addresses,
  mac_eq_refl, only, or_new, free_address-is_listed,
}

pub record IsServing (config : WifiApConfig) (s : Server) : Type 0 where
  pub bs : List DhcpBinding
  pub k : ℕ
  pub clients : s.clients ≡ slots_of bs k
  pub room : length bs + k ≡ max_dhcp_clients
  pub active : s.active ≡ addresses bs
  pub owned : Owned bs
  pub pool : All (λ (b : DhcpBinding). is_listed b.ip (lease_pool config) ≡ true) bs
  pub told :
      All (λ (r : DhcpReply). find_in r.client_hardware_address bs ≡ some r.your_ip) s.replies

pub All-map :
    {A : Type 0} (P Q : A → Type 0) → ((x : A) → P x → Q x) → (xs : List A) → All P xs → All Q xs
All-map P Q f [] p = p
All-map P Q f (x ∷ xs) p = (f x p.0, All-map P Q f xs p.1)

All-snoc :
    {A : Type 0} (P : A → Type 0) (xs : List A) (x : A) → All P xs → P x → All P (xs ++ (x ∷ []))
All-snoc P [] x p q = (q, tt)
All-snoc P (y ∷ xs) x p q = (p.0, All-snoc P xs x p.1 q)

-- A lease that the table holds already.
lease-found :
    (config : WifiApConfig) (kind : ReplyKind) (req : DhcpRequest) (s : Server) (ip : Ipv4Addr)
    → (h : IsServing config s) → find_in req.client_hardware_address h.bs ≡ some ip
    → IsServing config (lease config kind req s (s.clients, some ip))
lease-found config kind req s ip h found = record {
  bs = h.bs;
  k = h.k;
  clients = h.clients;
  room = h.room;
  active =
      ap (register ip) h.active
      ∙ if-true {b = is_listed ip (addresses h.bs)} _ _
          (find_in-is_listed req.client_hardware_address h.bs ip found);
  owned = h.owned;
  pool = h.pool;
  told = All-snoc _ s.replies _ h.told found;
}

lease-refused :
    (config : WifiApConfig) (kind : ReplyKind) (req : DhcpRequest) (s : Server)
    → IsServing config s
    → IsServing config (lease config kind req s (s.clients, none))
lease-refused config kind req s h = record {
  bs = h.bs;
  k = h.k;
  clients = h.clients;
  room = h.room;
  active = h.active;
  owned = h.owned;
  pool = h.pool;
  told = h.told;
}

below : (a : ℕ) → a < 8 → ltb a 8 ≡ true
below a h = ground (arith, h)

-- A lease of a fresh address.
lease-fresh :
    (config : WifiApConfig) (kind : ReplyKind) (req : DhcpRequest) (s : Server) (ip : Ipv4Addr)
    → (h : IsServing config s) (k : ℕ) → h.k ≡ suc k
    → find_in req.client_hardware_address h.bs ≡ none
    → is_listed ip (addresses h.bs) ≡ false
    → is_listed ip (lease_pool config) ≡ true
    → IsServing config (
        lease config kind req s (
          slots_of (h.bs ++ (record { mac = req.client_hardware_address; ip = ip } ∷ [])) k,
          some ip,
        ))
lease-fresh config kind req s ip h k free unknown fresh in_pool =
    let mac : Mac = req.client_hardware_address in
    let b : DhcpBinding = record { mac = mac; ip = ip } in
    record {
      bs = h.bs ++ (b ∷ []);
      k = k;
      clients = refl;
      room = omega (arith, length-append h.bs (b ∷ []), h.room, free);
      active =
          ap (register ip) h.active
          ∙ (if-false {b = is_listed ip (addresses h.bs)} _ _ fresh
              ∙ (if-true {b = ltb (length (addresses h.bs)) 8} _ _ (
                    below (length (addresses h.bs))
                      (omega (arith, length-addresses h.bs, h.room, free)))
                  ∙ sym (addresses-append h.bs b)));
      owned = Owned-append h.bs b h.owned fresh;
      pool = All-snoc _ h.bs b h.pool in_pool;
      told =
          All-snoc _ s.replies _
            (All-map _ _
              (λ r e.
                find_in-append r.client_hardware_address h.bs b
                ∙ ap (λ o. or_new o (only b r.client_hardware_address)) e)
              s.replies h.told)
            (find_in-append mac h.bs b
              ∙ (ap (λ o. or_new o (only b mac)) unknown
                  ∙ if-true {b = mac_eq mac mac} _ _ (mac_eq_refl mac)));
    }

module _ (config : WifiApConfig) (kind : ReplyKind) (req : DhcpRequest) (s : Server)
    (h : IsServing config s) where
  -- A new client, with `k` free slots and the picked address.
  lease-picked :
      (k : ℕ) (o : Option Ipv4Addr)
      → h.k ≡ suc k
      → free_address (lease_pool config) h.bs ≡ o
      → find_in req.client_hardware_address h.bs ≡ none
      → IsServing config (lease config kind req s (picked req.client_hardware_address h.bs k o))
  lease-picked k none free e unknown =
      subst (λ c. IsServing config (lease config kind req s (c, none)))
        (h.clients ∙ ap (slots_of h.bs) free) (lease-refused config kind req s h)
  lease-picked k (some ip) free e unknown =
      let fresh = free_address-is_listed (lease_pool config) h.bs ip e in
      lease-fresh config kind req s ip h k free unknown fresh.0 fresh.1

  lease-new :
      (k : ℕ)
      → h.k ≡ k
      → find_in req.client_hardware_address h.bs ≡ none
      → IsServing config (
          lease config kind req s
            (assign_from (lease_pool config) req.client_hardware_address s.clients))
  lease-new zero free unknown =
      let clients = h.clients ∙ ap (slots_of h.bs) free in
      subst (λ o. IsServing config (lease config kind req s o))
        (ap (λ c. (c, none)) clients
          ∙ (sym (assign_from-full (lease_pool config) req.client_hardware_address h.bs)
              ∙ ap (assign_from (lease_pool config) req.client_hardware_address) (sym clients)))
        (lease-refused config kind req s h)
  lease-new (suc k) free unknown =
      let clients = h.clients ∙ ap (slots_of h.bs) free in
      subst (λ o. IsServing config (lease config kind req s o))
        (sym (assign_from-picked (lease_pool config) req.client_hardware_address h.bs k)
          ∙ ap (assign_from (lease_pool config) req.client_hardware_address) (sym clients))
        (lease-picked k (free_address (lease_pool config) h.bs) free refl unknown)

  lease-known :
      (o : Option Ipv4Addr)
      → find_in req.client_hardware_address h.bs ≡ o
      → IsServing config
          (lease config kind req s (assign_new o config req.client_hardware_address s.clients))
  unfolding lease_pool
  lease-known none e = lease-new h.k refl e
  lease-known (some ip) e = lease-found config kind req s ip h e

  pub dhcp_assign_ip-IsServing :
      IsServing config
        (lease config kind req s (dhcp_assign_ip config req.client_hardware_address s.clients))
  unfolding dhcp_assign_ip
  dhcp_assign_ip-IsServing =
      let mac : Mac = req.client_hardware_address in
      subst (λ o. IsServing config (lease config kind req s (assign_new o config mac s.clients)))
        (sym (ap (find_binding mac) h.clients ∙ find_binding-slots_of mac h.bs h.k))
        (lease-known (find_in mac h.bs) refl)
