-- ===== src/Dhcp/Leases.antt =====
-- The server's table over any datagrams.
use esp_csi_rs.Base.{
  ℕ, suc, ◌≡◌, refl, sym, ap, ◌∙◌, subst, Bool, true, false, ◌&&◌, Option, none, some, List, [],
  ◌∷◌, ◌++◌, ◌==◌, length, if◌then◌else◌, if-true, if-false, Bool-cases, inl, inr, arith,
}
use mathlib.Core.Option.{some-injective}
use esp_csi_rs.Mac.{Mac, mac_eq}
use esp_csi_rs.Mode.{Ipv4Addr}
use esp_csi_rs.Dhcp.{DhcpBinding, ip_eq, is_listed}
use esp_csi_rs.Dhcp.Slots.{addresses, find_in, free_address}

same_byte : (a b : ℕ) → (a == b) ≡ true → a ≡ b
same_byte a b e = ground (arith, e)

same_bytes : (a b : ℕ) → a ≡ b → (a == b) ≡ true
same_bytes a b e = ground (arith, e)

both_true : (a b : Bool) → (a && b) ≡ true → (a ≡ true) × (b ≡ true)
both_true true b e = (refl, e)
both_true false b e = (e, cc)

mac_eq_path : (m k : Mac) → mac_eq m k ≡ true → m ≡ k
mac_eq_path m k e =
    let e5 = both_true _ (m.b5 == k.b5) e in
    let e4 = both_true _ (m.b4 == k.b4) e5.0 in
    let e3 = both_true _ (m.b3 == k.b3) e4.0 in
    let e2 = both_true _ (m.b2 == k.b2) e3.0 in
    let e1 = both_true (m.b0 == k.b0) (m.b1 == k.b1) e2.0 in
    let p0 = same_byte m.b0 k.b0 e1.0 in
    let p1 = same_byte m.b1 k.b1 e1.1 in
    let p2 = same_byte m.b2 k.b2 e2.1 in
    let p3 = same_byte m.b3 k.b3 e3.1 in
    let p4 = same_byte m.b4 k.b4 e4.1 in
    let p5 = same_byte m.b5 k.b5 e5.1 in
    λ i. record { b0 = p0 i; b1 = p1 i; b2 = p2 i; b3 = p3 i; b4 = p4 i; b5 = p5 i }

pub mac_eq_refl : (m : Mac) → mac_eq m m ≡ true
mac_eq_refl m =
    rw
      (
        same_bytes m.b0 m.b0 refl,
        same_bytes m.b1 m.b1 refl,
        same_bytes m.b2 m.b2 refl,
        same_bytes m.b3 m.b3 refl,
        same_bytes m.b4 m.b4 refl,
        same_bytes m.b5 m.b5 refl,
      )
      refl

ip_eq_refl : (ip : Ipv4Addr) → ip_eq ip ip ≡ true
ip_eq_refl ip =
    rw
      (
        same_bytes ip.o0 ip.o0 refl,
        same_bytes ip.o1 ip.o1 refl,
        same_bytes ip.o2 ip.o2 refl,
        same_bytes ip.o3 ip.o3 refl,
      )
      refl

ip_eq_path : (a b : Ipv4Addr) → ip_eq a b ≡ true → a ≡ b
ip_eq_path a b e =
    let e0 = both_true (a.o0 == b.o0) _ e in
    let e1 = both_true (a.o1 == b.o1) _ e0.1 in
    let e2 = both_true (a.o2 == b.o2) (a.o3 == b.o3) e1.1 in
    let p0 = same_byte a.o0 b.o0 e0.0 in
    let p1 = same_byte a.o1 b.o1 e1.0 in
    let p2 = same_byte a.o2 b.o2 e2.0 in
    let p3 = same_byte a.o3 b.o3 e2.1 in λ i. record { o0 = p0 i; o1 = p1 i; o2 = p2 i; o3 = p3 i }

pub find_in-is_listed :
    (mac : Mac) (bs : List DhcpBinding) (ip : Ipv4Addr)
    → find_in mac bs ≡ some ip
    → is_listed ip (addresses bs) ≡ true
find_in-is_listed mac [] ip e = cc
find_in-is_listed mac (b ∷ bs) ip e = elim (Bool-cases (mac_eq b.mac mac)) [
  | inl same ↦
      let found : b.ip ≡ ip =
        some-injective _ _ (sym (if-true {b = mac_eq b.mac mac} _ _ same) ∙ e) in
      if-true {b = ip_eq b.ip ip} _ _ (subst (λ a. ip_eq b.ip a ≡ true) found (ip_eq_refl b.ip))
  | inr differ ↦
      listed_later (ip_eq b.ip ip) (is_listed ip (addresses bs))
        (find_in-is_listed mac bs ip (sym (if-false {b = mac_eq b.mac mac} _ _ differ) ∙ e))
]
  where
    listed_later : (t r : Bool) → r ≡ true → (if t then true else r) ≡ true
    listed_later true r e = refl
    listed_later false r e = e

abbrev pub or_new : Option Ipv4Addr → Option Ipv4Addr → Option Ipv4Addr
or_new none o = o
or_new (some ip) o = some ip

abbrev pub only : DhcpBinding → Mac → Option Ipv4Addr
only b mac = if mac_eq b.mac mac then some b.ip else none

pub find_in-append :
    (mac : Mac) (bs : List DhcpBinding) (b : DhcpBinding)
    → find_in mac (bs ++ (b ∷ [])) ≡ or_new (find_in mac bs) (only b mac)
find_in-append mac [] b = refl
find_in-append mac (c ∷ bs) b =
    ap (λ r. if mac_eq c.mac mac then some c.ip else r) (find_in-append mac bs b)
    ∙ under_if (mac_eq c.mac mac) c.ip (find_in mac bs) (only b mac)
  where
    under_if :
        (t : Bool) (ip : Ipv4Addr) (o p : Option Ipv4Addr)
        → (if t then some ip else or_new o p) ≡ or_new (if t then some ip else o) p
    under_if true ip o p = refl
    under_if false ip o p = refl

-- No address belongs to two clients.
abbrev pub Owned : List DhcpBinding → Type 0
Owned bs = (m k : Mac) (ip : Ipv4Addr) → find_in m bs ≡ some ip → find_in k bs ≡ some ip → m ≡ k

only-mac :
    (b : DhcpBinding) (mac : Mac) (ip : Ipv4Addr)
    → only b mac ≡ some ip
    → (b.mac ≡ mac) × (b.ip ≡ ip)
only-mac b mac ip e = elim (Bool-cases (mac_eq b.mac mac)) [
  | inl same ↦ (
    mac_eq_path b.mac mac same,
    some-injective _ _ (sym (if-true {b = mac_eq b.mac mac} _ _ same) ∙ e),
  )
  | inr differ ↦
      let bad : none ≡ some ip = sym (if-false {b = mac_eq b.mac mac} _ _ differ) ∙ e in cc
]

pub Owned-append :
    (bs : List DhcpBinding) (b : DhcpBinding)
    → Owned bs
    → is_listed b.ip (addresses bs) ≡ false
    → Owned (bs ++ (b ∷ []))
Owned-append bs b owned fresh m k ip p q =
    same_owner (find_in m bs) (find_in k bs) refl refl (sym (find_in-append m bs b) ∙ p)
      (sym (find_in-append k bs b) ∙ q)
  where
    taken : (mac : Mac) → find_in mac bs ≡ some b.ip → ⊥
    taken mac e = let listed = find_in-is_listed mac bs b.ip e in cc

    same_owner :
        (x y : Option Ipv4Addr)
        → find_in m bs ≡ x
        → find_in k bs ≡ y
        → or_new x (only b m) ≡ some ip
        → or_new y (only b k) ≡ some ip
        → m ≡ k
    same_owner none none e f p' q' = sym (only-mac b m ip p').0 ∙ (only-mac b k ip q').0
    same_owner none (some y) e f p' q' =
        absurd (taken k (f ∙ (q' ∙ ap some (sym (only-mac b m ip p').1))))
    same_owner (some x) none e f p' q' =
        absurd (taken m (e ∙ (p' ∙ ap some (sym (only-mac b k ip q').1))))
    same_owner (some x) (some y) e f p' q' = owned m k ip (e ∙ p') (f ∙ q')

pub addresses-append :
    (bs : List DhcpBinding) (b : DhcpBinding)
    → addresses (bs ++ (b ∷ [])) ≡ addresses bs ++ (b.ip ∷ [])
addresses-append [] b = refl
addresses-append (c ∷ bs) b = ap (λ l. c.ip ∷ l) (addresses-append bs b)

pub length-addresses : (bs : List DhcpBinding) → length (addresses bs) ≡ length bs
length-addresses [] = refl
length-addresses (b ∷ bs) = ap suc (length-addresses bs)

pub free_address-is_listed :
    (ips : List Ipv4Addr) (bs : List DhcpBinding) (ip : Ipv4Addr)
    → free_address ips bs ≡ some ip
    → (is_listed ip (addresses bs) ≡ false) × (is_listed ip ips ≡ true)
free_address-is_listed [] bs ip e = cc
free_address-is_listed (a ∷ ips) bs ip e = elim (Bool-cases (is_listed a (addresses bs))) [
  | inl taken ↦
      let r =
        free_address-is_listed ips bs ip
          (sym (if-true {b = is_listed a (addresses bs)} _ _ taken) ∙ e) in
      (r.0, later (ip_eq a ip) (is_listed ip ips) r.1)
  | inr free ↦
      let same : a ≡ ip =
        some-injective _ _ (sym (if-false {b = is_listed a (addresses bs)} _ _ free) ∙ e) in
      (
        subst (λ x. is_listed x (addresses bs) ≡ false) same free,
        if-true {b = ip_eq a ip} _ _ (subst (λ x. ip_eq a x ≡ true) same (ip_eq_refl a)),
      )
]
  where
    later : (t r : Bool) → r ≡ true → (if t then true else r) ≡ true
    later true r e = refl
    later false r e = e

-- In such a table, two clients with a lease have the same address exactly if they are the same.
pub Owned-same :
    (bs : List DhcpBinding) (m k : Mac) (a b : Ipv4Addr)
    → Owned bs
    → find_in m bs ≡ some a
    → find_in k bs ≡ some b
    → ip_eq a b ≡ mac_eq m k
Owned-same bs m k a b owned p q = elim (Bool-cases (mac_eq m k)) [
  | inl same ↦
      let found : a ≡ b =
        some-injective _ _ (sym p ∙ (ap (λ x. find_in x bs) (mac_eq_path m k same) ∙ q)) in
      subst (λ x. ip_eq a x ≡ true) found (ip_eq_refl a) ∙ sym same
  | inr differ ↦ elim (Bool-cases (ip_eq a b)) [
    | inl equal ↦
        let client : m ≡ k = owned m k b (p ∙ ap some (ip_eq_path a b equal)) q in
        let same : mac_eq m k ≡ true = subst (λ x. mac_eq m x ≡ true) client (mac_eq_refl m) in cc
    | inr apart ↦ apart ∙ sym differ
  ]
]
