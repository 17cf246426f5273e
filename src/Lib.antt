-- ===== src/Lib.antt =====
-- A model of the core of poholos: short messages that flood through a mesh of Bluetooth
-- advertisements. Paths are from the repository's root.
--
-- The program. A packet (crates/poholos/src/packet.rs) is hearsay, for everyone, or a telegram for
-- one node; it has a hop count, and a key that all its copies share. crates/poholos/src/wire.rs
-- encodes it into a frame of at most `CAP` bytes and decodes received bytes. A node's router
-- (crates/poholos/src/router.rs) decodes what it hears, asks the seen cache
-- (crates/poholos/src/seen.rs) whether the key is new, and answers whether to deliver the packet, to
-- send it on with one hop less, or to ignore it. The rotation (crates/poholos/src/rotation.rs)
-- decides which of the own and the relayed frames is on the air next.
--
-- Around this core stand the hosts. The chat loop (crates/poholos-cli/src/app.rs) turns typed lines
-- into packets and shows what the router delivers; crates/poholos-cli/src/transport/ble puts frames
-- on the air, turn by turn. crates/poholos-ffi/src/lib.rs offers the router to C. The boards
-- (crates/poholos-microbit-morse, crates/poholos-microbit) run the router between a radio, a display
-- and buttons; on the first a message is keyed in Morse code (crates/poholos-morse/src/lib.rs).
--
-- The files.
--   Prelude: numbers, lists, results with panics (`Outcome`), bit operations and machine words.
--   Errors: crates/poholos/src/error.rs. Errors/Told: its predicates, on the bytes that were refused.
--     Errors/Numbers, Errors/Messages: the messages, and a reader of them.
--   Fnv: `fnv64` and `fnv64_update` of crates/poholos/src/seen.rs. Fnv/Reference: the hash as its
--     draft has it.
--   Packet: crates/poholos/src/packet.rs and `PacketError` of crates/poholos/src/error.rs.
--     Packet/Valid: what a well-formed packet is, and the constructors. Packet/Hop: `hop`.
--     Packet/Key: `dedup_key`.
--   Wire: crates/poholos/src/wire.rs and `WireError`. Wire/Encode, Wire/Decode: the two functions.
--     Wire/Layout: the bytes `encode` writes. Wire/Accept: a reference for `decode`. Wire/RoundTrip,
--     Wire/Read: how the two fit. Wire/Frames: `copy_from`. Wire/Ad: `manufacturer_frame`;
--     Wire/Ad/Ends: where it ends.
--   NodeId: crates/poholos/src/node_id.rs, strings as lists of bytes. NodeId/Split: `rsplit_once`.
--     NodeId/Names: the names accepted, `new` and `parse`.
--   Seen: crates/poholos/src/seen.rs. Seen/Recency: what the cache promises, a list of keys by when
--     they were last heard. Seen/Ring: the backend for `no_std`, and its refinement of that list.
--     Seen/Linked: the backend for `std`. Seen/Cache: the interface of both.
--   Router: crates/poholos/src/router.rs over any backend. Router/Decision: the policy.
--     Router/Policy: `ingest` on any bytes. Router/Relay: what is delivered and what is sent on.
--     Router/History: sequences of calls. Router/Mesh, Router/Line: two nodes, and a
--     line of nodes. Router/Actions: which answers there are.
--   Rotation: crates/poholos/src/rotation.rs. Rotation/Schedule: the turns on plain lists.
--     Rotation/Queue, Rotation/Refine: the ring and the rotation implement them. Rotation/Holds:
--     what all frames in it have in common. Rotation/Fair,
--     Rotation/Drain: how the airtime is shared.
--   Text: strings of the standard library as lists of code points, and UTF-8; Text/Split, Text/Utf8.
--   Ffi: crates/poholos-ffi/src/lib.rs; a null pointer is `none`, and what a pointer points to is
--     part of the state. Ffi/Flat: the flat action. Ffi/Calls: `poholos_router_ingest`.
--   Ble: crates/poholos-cli/src/transport/ble. Ble/Uuid: the frames in service UUIDs and in
--     manufacturer data, of scan.rs. Ble/Scan: its `scan_loop`; Ble/Scan/Heard: what it forwards.
--     Ble/Advertise: the queue and `advertise_loop`, of mod.rs, over any platform. Ble/Belief: what is
--     on the air. Ble/Linux, Ble/Macos, Ble/Windows: the platforms' `set_frame`.
--   Udp: crates/poholos-cli/src/transport/udp.rs. Udp/Streaks: what `read_loop` hands on.
--   Transports: crates/poholos-cli/src/transport/mod.rs.
--   Cli: `parse_outgoing` of crates/poholos-cli/src/app.rs. Cli/Lines: what lines ask for.
--     Cli/Chat: `run`, one step for each event. Cli/Apt, Cli/Session: what it shows,
--     over any events. Cli/Heard: two chats. Cli/Main: `main` of crates/poholos-cli/src/main.rs.
--   Morse: `Composer` of crates/poholos-morse/src/lib.rs. Morse/Spaces, Morse/Keeps: its
--     invariant. Morse/Spells: letters and words. Morse/Clear: `clear` within a letter.
--   Serde: the serde impls of crates/poholos/src/packet.rs and crates/poholos/src/wire.rs, and
--     crates/poholos/src/codec.rs. Serde/Visits: sequences and byte strings. Serde/Packets: what is
--     read back, and what `encode` makes of it.
--   Firmware: the boards. Firmware/Compose: `compose_task`. Firmware/Keyed: its messages.
--     Firmware/Node: `router_task`, `deliver` and the display queue of both boards.
--     Firmware/Channels: queues that shed. Firmware/Scan: `on_ext_adv_reports` of
--     crates/poholos-microbit/src/radio.rs. Firmware/Radio: its advertisements. Firmware/Slot: the
--     advertising loop of both boards' radio.rs; Firmware/Slot/Heard: what is heard of it.
--     Firmware/Airs, Firmware/Shows, Firmware/Tasks, Firmware/Runs: what is sent, what is shown, and
--     the tasks over any events. Firmware/Buttons: `button_task` and `ble_address`.
--     Firmware/Letters: telegrams typed for a board by its name; Firmware/Letters/Shown: what it
--     shows of them.
--   Tests: the theorems at concrete inputs.
--
-- How code is modelled. A method that takes `&mut self` returns the state after the call. The
-- const `CAP` is an argument `cap`; a byte buffer is a list of `cap` numbers with a length. Numbers
-- are natural numbers with their wrap-around or cast written out (`% 256`, `% 2 ^ 64`); the shift of
-- the version is a product within a byte. A panic is a value: `panic` of `Outcome`, or `none` where
-- the call has no error of its own. The debug assertion of `encode` is such a panic. `ring_cache`
-- is for any capacity; the program's is `seen_capacity`, 512.
--
-- Fuel. The loop of `manufacturer_frame` runs on one more than the number of bytes: each round takes
-- a byte at least. The loops of the ring run over counts that the code computes.
--
-- Events. A loop that waits for several sources is a function of the list of what came, in order:
-- `run` of the chat, `scan_loop`, the advertising loops with the frames that arrive in each pass
-- and what the Bluetooth stack answers, and the tasks of the boards. A queue that makes its sender
-- wait is the list of what was sent. Time is left out, but for the tick that starts a board's sequence numbers.
--
-- Parameters. hashlink's `LinkedHashSet`, of the `std` backend, is a record of operations with their
-- documented laws (Seen/Linked). The decoder of the `morse_codec` crate is a record too
-- (`MorseDecoder`): its character and its message, how the calls change them, that an empty character
-- is a space and no other is, and that characters are ASCII. The encoder of AD structures of
-- `trouble_host` is a hypothesis (`IsEncoder`): it writes what fits, in the format of Bluetooth.
-- serde's formats are what they hand to a visitor, a byte string or a sequence; `postcard` is a record
-- that reads back what it wrote. clap gives exactly one of the two names. Of a platform's Bluetooth
-- stack it is left open whether each call succeeds; a publisher of Windows that is stopped counts as
-- silent at once. `try_send` of embassy's channels and `push_str` of heapless' strings are written
-- out as documented.
--
-- Not modelled: backtraces; the opening of sockets and adapters; the terminal and the texts on it;
-- interrupts, peripherals, sounds and glyphs of the boards; the advertiser of targets without
-- Bluetooth, which cannot be made; `poholos_router_free`, which only releases memory; the iOS
-- application.
pub mod Prelude
pub mod Text
pub mod Fnv
pub mod Packet
pub mod Wire
pub mod NodeId
pub mod Seen
pub mod Router
pub mod Rotation
pub mod Ffi
pub mod Ble
pub mod Udp
pub mod Transports
pub mod Cli
pub mod Morse
pub mod Serde
pub mod Errors
pub mod Firmware
pub mod Tests
