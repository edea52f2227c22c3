-- ===== src/Mode/Leases.antt =====
-- The addresses that the access point leases.
use esp_csi_rs.Base.{
  ℕ, zero, suc, ◌+◌, ◌-◌, ◌≤◌, min, ◌≡◌, refl, ap, ap₂, ◌∙◌, List, [], ◌∷◌, arith,
}
use esp_csi_rs.Mode.{Ipv4Addr, WifiApConfig, lease_ip_at, leases_from, lease_pool}

-- Consecutive addresses.
abbrev pub consecutive : Ipv4Addr → ℕ → List Ipv4Addr
consecutive ip zero = []
consecutive ip (suc n) = ip ∷ consecutive (record ip { o3 = ip.o3 + 1 }) n

leases_from-consecutive :
    (c : WifiApConfig) (n i : ℕ)
    → i + n ≤ c.lease_count
    → c.lease_ipv4.o3 + (i + n) ≤ 256
    → leases_from c n i ≡ consecutive (record c.lease_ipv4 { o3 = c.lease_ipv4.o3 + i }) n
unfolding lease_ip_at leases_from
leases_from-consecutive c zero i few fits = refl
leases_from-consecutive c (suc n) i few fits =
    let here : min (c.lease_ipv4.o3 + min i (c.lease_count - 1)) 255 ≡ c.lease_ipv4.o3 + i =
      omega arith in
    let step : c.lease_ipv4.o3 + suc i ≡ c.lease_ipv4.o3 + i + 1 = omega arith in
    ap₂ ◌∷◌ (ap (λ o. record c.lease_ipv4 { o3 = o }) here) (
      leases_from-consecutive c n (suc i) (omega arith) (omega arith)
      ∙ ap (λ o. consecutive (record c.lease_ipv4 { o3 = o }) n) step)

-- An access point whose leases stay below the last octet 255 leases `lease_count` consecutive
-- addresses from its first one, and at most 8.
pub lease_pool-consecutive :
    (c : WifiApConfig)
    → c.lease_ipv4.o3 + min c.lease_count 8 ≤ 256
    → lease_pool c ≡ consecutive c.lease_ipv4 (min c.lease_count 8)
unfolding lease_pool
lease_pool-consecutive c fits =
    let zero_on : c.lease_ipv4.o3 + 0 ≡ c.lease_ipv4.o3 = omega arith in
    leases_from-consecutive c (min c.lease_count 8) 0 (omega arith) (omega arith)
    ∙ ap (λ o. consecutive (record c.lease_ipv4 { o3 = o }) (min c.lease_count 8)) zero_on

-- Beyond the last octet, the last two leases are one address.
pub lease_ip_at-collide :
    (c : WifiApConfig)
    → 2 ≤ c.lease_count
    → 257 ≤ c.lease_ipv4.o3 + c.lease_count
    → lease_ip_at c (c.lease_count - 2) ≡ lease_ip_at c (c.lease_count - 1)
unfolding lease_ip_at
lease_ip_at-collide c many beyond = ap (λ o. record c.lease_ipv4 { o3 = o }) (omega arith)
