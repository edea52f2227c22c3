-- ===== src/Dhcp.antt =====
-- src/lib/wifi/ap.rs: the leases of the access point and its DHCP server. smoltcp's codec is `parse`,
-- `buffer_len` and `emit`; a datagram is a list of bytes, or `none` for an error of the socket.
pub mod Slots
pub mod Leases
pub mod Table
pub mod Serving
mod Tests
use esp_csi_rs.Base.{
  ℕ, zero, suc, min, Bool, true, false, ◌&&◌, Option, none, some, List, [], ◌∷◌, ◌++◌, ◌==◌, ltb,
  length, replicate, leb, not, unwrap_or, if◌then◌else◌,
}
use esp_csi_rs.Mac.{Mac, mac_eq}
use esp_csi_rs.Mode.{Ipv4Addr, WifiApConfig, lease_pool, leases_from}

abbrev pub max_dhcp_clients : ℕ
max_dhcp_clients = 8

abbrev pub ip_eq : Ipv4Addr → Ipv4Addr → Bool
ip_eq a b = (a.o0 == b.o0) && ((a.o1 == b.o1) && ((a.o2 == b.o2) && (a.o3 == b.o3)))

pub record DhcpBinding : Type 0 where
  pub mac : Mac
  pub ip : Ipv4Addr

abbrev pub Slots : Type 0
Slots = List (Option DhcpBinding)

abbrev pub new_slots : Slots
new_slots = replicate max_dhcp_clients none

-- `ActiveLeaseRegistry`: the first `count` cells of its array.
abbrev pub is_listed : Ipv4Addr → List Ipv4Addr → Bool
is_listed ip [] = false
is_listed ip (a ∷ ips) = if ip_eq a ip then true else is_listed ip ips

abbrev pub register : Ipv4Addr → List Ipv4Addr → List Ipv4Addr
register ip ips =
    if is_listed ip ips
    then ips
    else if ltb (length ips) max_dhcp_clients
    then ips ++ (ip ∷ [])
    else ips

-- The first loop of `dhcp_assign_ip`.
abbrev pub find_binding : Mac → Slots → Option Ipv4Addr
find_binding mac [] = none
find_binding mac (none ∷ slots) = find_binding mac slots
find_binding mac (some c ∷ slots) = if mac_eq c.mac mac then some c.ip else find_binding mac slots

-- `taken`.
abbrev pub is_taken : Ipv4Addr → Slots → Bool
is_taken ip [] = false
is_taken ip (none ∷ slots) = is_taken ip slots
is_taken ip (some c ∷ slots) = if ip_eq c.ip ip then true else is_taken ip slots

-- The binding in the first free slot.
abbrev pub kept_slot : DhcpBinding → Option Slots → Option Slots
kept_slot c none = none
kept_slot c (some slots) = some (some c ∷ slots)

abbrev pub take_slot : DhcpBinding → Slots → Option Slots
take_slot b [] = none
take_slot b (none ∷ slots) = some (some b ∷ slots)
take_slot b (some c ∷ slots) = kept_slot c (take_slot b slots)

abbrev pub slot_or : Option Slots → Ipv4Addr → Slots × Option Ipv4Addr → Slots × Option Ipv4Addr
slot_or none ip rest = rest
slot_or (some slots) ip rest = (slots, some ip)

-- The loop over the candidates.
unfoldable pub assign_from : List Ipv4Addr → Mac → Slots → Slots × Option Ipv4Addr
assign_from [] mac slots = (slots, none)
assign_from (ip ∷ ips) mac slots =
    let rest = assign_from ips mac slots in
    if is_taken ip slots
    then rest
    else slot_or (take_slot (record { mac = mac; ip = ip }) slots) ip rest

abbrev pub assign_new : Option Ipv4Addr → WifiApConfig → Mac → Slots → Slots × Option Ipv4Addr
assign_new none config mac slots =
    assign_from (leases_from config (min config.lease_count max_dhcp_clients) 0) mac slots
assign_new (some ip) config mac slots = (slots, some ip)

unfoldable pub dhcp_assign_ip : WifiApConfig → Mac → Slots → Slots × Option Ipv4Addr
dhcp_assign_ip config mac slots = assign_new (find_binding mac slots) config mac slots

-- The message types that the server tells apart.
pub data MessageKind : Type 0 where
  discover request other : MessageKind

pub record DhcpRequest : Type 0 where
  pub kind : MessageKind
  pub transaction_id : ℕ
  pub client_hardware_address : Mac

pub data ReplyKind : Type 0 where
  offer ack : ReplyKind

-- The fields of the reply that are not constants.
pub record DhcpReply : Type 0 where
  pub kind : ReplyKind
  pub transaction_id : ℕ
  pub client_hardware_address : Mac
  pub your_ip : Ipv4Addr
  pub server_ip : Ipv4Addr

abbrev pub reply_type : MessageKind → Option ReplyKind
reply_type MessageKind.discover = some ReplyKind.offer
reply_type MessageKind.request = some ReplyKind.ack
reply_type MessageKind.other = none

-- `clients` and `ACTIVE_LEASES`, with the replies so far.
pub record Server : Type 0 where
  pub clients : Slots
  pub active : List Ipv4Addr
  pub replies : List DhcpReply

-- `run_dhcp_server` on a device that has not served before.
abbrev pub new_server : Server
new_server = record { clients = new_slots; active = []; replies = [] }

abbrev pub lease :
    WifiApConfig → ReplyKind → DhcpRequest → Server → Slots × Option Ipv4Addr → Server
lease config kind req s (slots, none) = record s { clients = slots }
lease config kind req s (slots, some ip) = record {
  clients = slots;
  active = register ip s.active;
  replies =
      s.replies
      ++ (record {
        kind = kind;
        transaction_id = req.transaction_id;
        client_hardware_address = req.client_hardware_address;
        your_ip = ip;
        server_ip = config.ap_ipv4;
      }
          ∷ []);
}

abbrev pub answer_with : WifiApConfig → DhcpRequest → Server → Option ReplyKind → Server
answer_with config req s none = s
answer_with config req s (some kind) =
    lease config kind req s (dhcp_assign_ip config req.client_hardware_address s.clients)

module _ (parse : List ℕ → Option DhcpRequest) where
  abbrev pub on_request : WifiApConfig → Option DhcpRequest → Server → Server
  on_request config none s = s
  on_request config (some req) s = answer_with config req s (reply_type req.kind)

  abbrev pub on_datagram : WifiApConfig → Option (List ℕ) → Server → Server
  on_datagram config none s = s
  on_datagram config (some bytes) s = on_request config (parse bytes) s

  -- The loop, over the datagrams that arrive.
  unfoldable pub serve_all : WifiApConfig → List (Option (List ℕ)) → Server → Server
  unfolding dhcp_assign_ip
  serve_all config [] s = s
  serve_all config (d ∷ ds) s = serve_all config ds (on_datagram config d s)

-- What goes out for a reply: nothing where it does not fit or cannot be written.
abbrev pub out_buf_len : ℕ
out_buf_len = 600

unfoldable pub sent_for :
    (DhcpReply → ℕ) → (DhcpReply → Option (List ℕ)) → DhcpReply → Option (List ℕ)
sent_for buffer_len emit reply = if ltb out_buf_len (buffer_len reply) then none else emit reply

-- What `ap_ping_lease` starts once a lease is active or the wait is over; `hz` is the rate.
pub data Flood : Type 0 where
  no_flood : Flood
  single : Ipv4Addr → ℕ → Flood
  multi burst : List Ipv4Addr → ℕ → Flood

abbrev pub ping_targets : List Ipv4Addr → WifiApConfig → List Ipv4Addr
ping_targets [] config = lease_pool config
ping_targets (ip ∷ ips) config = ip ∷ ips

abbrev pub flood_to : Bool → List Ipv4Addr → ℕ → Flood
flood_to sync_burst [] hz = Flood.no_flood
flood_to true (ip ∷ ips) hz = Flood.burst (ip ∷ ips) hz
flood_to false (ip ∷ ips) hz = Flood.multi (ip ∷ ips) hz

unfoldable pub ap_ping_lease : WifiApConfig → Option ℕ → List Ipv4Addr → Flood
ap_ping_lease config frequency_hz active =
    let hz = unwrap_or frequency_hz 1000 in
    if not config.sync_burst && leb config.lease_count 1
    then Flood.single config.lease_ipv4 hz
    else flood_to config.sync_burst (ping_targets active config) hz
