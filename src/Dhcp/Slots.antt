-- ===== src/Dhcp/Slots.antt =====
-- The slots as the bindings in them, in order, and free ones.
use esp_csi_rs.Base.{
  ℕ, zero, suc, ◌≡◌, refl, ap, ◌∙◌, Bool, true, false, Option, none, some, List, [], ◌∷◌, ◌++◌,
  if◌then◌else◌, replicate,
}
use esp_csi_rs.Mac.{Mac, mac_eq}
use esp_csi_rs.Mode.{Ipv4Addr}
use esp_csi_rs.Dhcp.{
  DhcpBinding, Slots, assign_from, find_binding, ip_eq, is_listed, is_taken, kept_slot, slot_or,
  take_slot,
}

abbrev pub slots_of : List DhcpBinding → ℕ → Slots
slots_of [] k = replicate k none
slots_of (b ∷ bs) k = some b ∷ slots_of bs k

abbrev pub addresses : List DhcpBinding → List Ipv4Addr
addresses [] = []
addresses (b ∷ bs) = b.ip ∷ addresses bs

abbrev pub find_in : Mac → List DhcpBinding → Option Ipv4Addr
find_in mac [] = none
find_in mac (b ∷ bs) = if mac_eq b.mac mac then some b.ip else find_in mac bs

find_free : (mac : Mac) (k : ℕ) → find_binding mac (slots_of [] k) ≡ none
find_free mac zero = refl
find_free mac (suc k) = find_free mac k

pub find_binding-slots_of :
    (mac : Mac) (bs : List DhcpBinding) (k : ℕ) → find_binding mac (slots_of bs k) ≡ find_in mac bs
find_binding-slots_of mac [] k = find_free mac k
find_binding-slots_of mac (b ∷ bs) k =
    ap (λ r. if mac_eq b.mac mac then some b.ip else r) (find_binding-slots_of mac bs k)

free_not_taken : (ip : Ipv4Addr) (k : ℕ) → is_taken ip (slots_of [] k) ≡ false
free_not_taken ip zero = refl
free_not_taken ip (suc k) = free_not_taken ip k

is_taken-slots_of :
    (ip : Ipv4Addr) (bs : List DhcpBinding) (k : ℕ)
    → is_taken ip (slots_of bs k) ≡ is_listed ip (addresses bs)
is_taken-slots_of ip [] k = free_not_taken ip k
is_taken-slots_of ip (b ∷ bs) k =
    ap (λ r. if ip_eq b.ip ip then true else r) (is_taken-slots_of ip bs k)

take_slot-full : (b : DhcpBinding) (bs : List DhcpBinding) → take_slot b (slots_of bs 0) ≡ none
take_slot-full b [] = refl
take_slot-full b (c ∷ bs) = ap (kept_slot c) (take_slot-full b bs)

take_slot-slots_of :
    (b : DhcpBinding) (bs : List DhcpBinding) (k : ℕ)
    → take_slot b (slots_of bs (suc k)) ≡ some (slots_of (bs ++ (b ∷ [])) k)
take_slot-slots_of b [] k = refl
take_slot-slots_of b (c ∷ bs) k = ap (kept_slot c) (take_slot-slots_of b bs k)

-- The first address that no binding has.
abbrev pub free_address : List Ipv4Addr → List DhcpBinding → Option Ipv4Addr
free_address [] bs = none
free_address (ip ∷ ips) bs = if is_listed ip (addresses bs) then free_address ips bs else some ip

abbrev pub picked : Mac → List DhcpBinding → ℕ → Option Ipv4Addr → Slots × Option Ipv4Addr
picked mac bs k none = (slots_of bs (suc k), none)
picked mac bs k (some ip) = (slots_of (bs ++ (record { mac = mac; ip = ip } ∷ [])) k, some ip)

same_either : {A : Type 0} (t : Bool) (x y z : A) → x ≡ z → y ≡ z → (if t then x else y) ≡ z
same_either true x y z p q = p
same_either false x y z p q = q

pub assign_from-full :
    (ips : List Ipv4Addr) (mac : Mac) (bs : List DhcpBinding)
    → assign_from ips mac (slots_of bs 0) ≡ (slots_of bs 0, none)
unfolding assign_from
assign_from-full [] mac bs = refl
assign_from-full (ip ∷ ips) mac bs =
    let rest : Slots × Option Ipv4Addr = assign_from ips mac (slots_of bs 0) in
    same_either (is_taken ip (slots_of bs 0)) rest
      (slot_or (take_slot (record { mac = mac; ip = ip }) (slots_of bs 0)) ip rest)
      (slots_of bs 0, none) (assign_from-full ips mac bs)
      (ap (λ o. slot_or o ip rest) (take_slot-full (record { mac = mac; ip = ip }) bs)
        ∙ assign_from-full ips mac bs)

picked_if :
    (t : Bool) (mac : Mac) (bs : List DhcpBinding) (k : ℕ) (o p : Option Ipv4Addr)
    → (if t then picked mac bs k o else picked mac bs k p) ≡ picked mac bs k (if t then o else p)
picked_if true mac bs k o p = refl
picked_if false mac bs k o p = refl

pub assign_from-picked :
    (ips : List Ipv4Addr) (mac : Mac) (bs : List DhcpBinding) (k : ℕ)
    → assign_from ips mac (slots_of bs (suc k)) ≡ picked mac bs k (free_address ips bs)
unfolding assign_from
assign_from-picked [] mac bs k = refl
assign_from-picked (ip ∷ ips) mac bs k =
    let b : DhcpBinding = record { mac = mac; ip = ip } in
    let rest : Slots × Option Ipv4Addr = assign_from ips mac (slots_of bs (suc k)) in
    ap (λ t. if t then rest else slot_or (take_slot b (slots_of bs (suc k))) ip rest)
      (is_taken-slots_of ip bs (suc k))
    ∙ (ap (λ o. if is_listed ip (addresses bs) then rest else slot_or o ip rest)
          (take_slot-slots_of b bs k)
        ∙ (ap (λ r. if is_listed ip (addresses bs) then r else picked mac bs k (some ip))
              (assign_from-picked ips mac bs k)
            ∙ picked_if (is_listed ip (addresses bs)) mac bs k (free_address ips bs) (some ip)))
