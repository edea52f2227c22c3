-- ===== src/Lib.antt =====
-- esp-csi-rs: a model of the device side of the CSI library, from the Wi-Fi driver's callback to what
-- leaves the node, with the theorems that make its parts correct.
--
-- The program captures channel state information on ESP32 chips. The driver calls
-- `capture_csi_info` for each measured frame; behind the publish gate, the attribution filter and
-- the reporting policy, the driver's buffer becomes a `CsiFrame` with a layout and receive metadata,
-- is wrapped in this node's envelope, accounted to its transmitter, and delivered to a callback, a
-- 32-slot queue or the log. Other sources enter through `emit`.
--
-- Base (Tests, Lists, Bits, Int): names and lemmas that the other modules share; integers, tests and
--   lists over the native numbers, and bit operations as arithmetic.
-- Calendar (Spec, Convert, Unique): src/lib/time.rs.
-- Mac (Pack): the `[u8; 6]` addresses, packed and unpacked as src/lib/csi/delivery.rs and
--   src/lib/csi/session.rs do.
-- Wire: the types of src/lib/wire/mod.rs. Wire.Header (Probe): `HeaderDigest`, and the probe frame of
--   src/lib/emitter/frame.rs. Wire.Layout (Classify, Laws, Complete): src/lib/wire/layout.rs.
--   Wire.Setup (Sets, Rate): src/lib/wire/setup.rs.
-- Model: `Reporting` and the roles of src/lib/model.rs. Mode (Leases): its modes, with the
--   configurations of src/lib/node.rs and src/lib/emitter/mod.rs.
-- Policy (Decimate, Hold, Bounds, Score): src/lib/csi/policy.rs.
-- Session (Timestamp): src/lib/csi/session.rs. Packet (Run): src/lib/csi/mod.rs.
-- Protocol (Framing, Sequence): src/lib/protocol.rs.
-- Esp (Layouts): src/lib/csi/esp.rs.
-- Stats (Run, Losses, Table, Gaps): src/lib/stats.rs with the `statistics` feature.
-- EspNow: src/lib/esp_now_config.rs and src/lib/espnow_phy.rs. Pool (Laws): src/lib/esp_now_pool.rs.
-- Pacing (Laws): the pacing that both ESP-NOW loops share.
-- Responder (Locked, Run, Promote, Sequence, Loop, Replies): src/lib/responder/esp_now.rs.
-- Initiator (Peers, Numbers): src/lib/initiator/esp_now.rs.
-- Simplex (Beacons, Flood): src/lib/initiator/esp_now_simplex.rs and
--   src/lib/responder/esp_now_simplex.rs.
-- Config (Slots): src/lib/config/csi.rs and the esp32c5 workaround of src/lib/csi/delivery.rs.
-- Node (Offers, Apply): src/lib/measurement.rs and `apply_measurement_setup` of src/lib/node.rs.
-- Delivery (Admit, Asked, Capture, Gate, Queue, Paths): src/lib/csi/delivery.rs and `emit` of
--   src/lib/csi/source.rs.
-- Synthetic (After, Schedule): src/lib/wire/synthetic.rs.
-- Row: src/lib/csi/text_row.rs.
-- Decimal (Digits), Line (Calls, Array, Split, Names, Texts, Tool, Bracketed, Columns) and Log
--   (Text, Frames, Rounds, Streams, Sync, Same, Whole): src/lib/logging/logging.rs, its byte
--   writers, its lines, and the log with its two paths to the console.
-- Dhcp (Slots, Leases, Table, Serving): the DHCP server of src/lib/wifi/ap.rs. Station (Armed): the
--   association of src/lib/wifi/sta.rs.
-- Samples, and each part's Tests: concrete data and examples.
--
-- State is explicit. The statics of a source file are the fields of one record (`Session`, `Stats`,
-- `Delivery`), each function takes the record and returns it, and each call runs to its end: the
-- callback is the only writer of most of them, and interleavings inside a function are not modelled.
-- `Node` of Delivery.Capture joins the three records for `capture_csi_info`, `deliver` and `emit`,
-- whose effects outside are a list of outputs. A task that waits in a loop is a function of the
-- events that its rounds meet, in order, and returns the frames that it sends. The clock, the
-- random number, the chip and the base MAC are arguments. A `u8` to `u64` is a natural number with
-- its wrap written out where the code can reach it, an `i8` an integer; the build's `overflow-checks`
-- are an argument of the one place that overflows (Synthetic).
--
-- Parameters: postcard is a writer and a reader, with its round trip as a hypothesis where a theorem
-- needs it; the accessors of esp-radio's `WifiCsiInfo` and the calls of its ESP-NOW driver are the
-- fields of a record; smoltcp's DHCP codec and `encode_cobs` are functions; heapless containers are
-- lists with their bounds written out.
--
-- Fuel: `unix_to_date_time` runs its year loop on one more than the number of days, which is enough
-- because each round takes off at least a day.
--
-- Not modelled: postcard and COBS encoding (`encode_cobs`, `decode`), which only call those crates;
-- of the log, the defmt logger, the UART and JTAG drivers and the choice between them at start-up; the
-- node's run life cycle, the ICMP floods and the network set-up of the station and access point, the
-- emitter's loop and the radio profiles, which drive the hardware through the driver and embassy-net;
-- the waker's registration; the rate task `run_process_csi_packet`.
pub mod Base
pub mod Calendar
pub mod Policy
pub mod Mac
pub mod Wire
pub mod Session
pub mod Packet
pub mod Protocol
pub mod Stats
pub mod Esp
pub mod Pool
pub mod EspNow
pub mod Pacing
pub mod Responder
pub mod Initiator
pub mod Simplex
pub mod Config
pub mod Mode
pub mod Node
pub mod Model
pub mod Delivery
pub mod Dhcp
pub mod Samples
pub mod Synthetic
pub mod Row
pub mod Decimal
pub mod Line
pub mod Log
pub mod Station
