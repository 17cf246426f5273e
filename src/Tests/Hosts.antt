-- ===== src/Tests/Hosts.antt =====
-- Runs of the theorems on the C interface, the command line and its transport.
use poholos.Prelude.{
  All, List, Option, [], arith, false, none, refl, replicate, some, true, ◌++◌, ◌-◌, ◌∷◌, ◌≡◌,
}
use poholos.Text.{IsChar}
use poholos.Wire.{Frame}
use poholos.Udp.{Reader, Received, failed, datagram, max_consecutive_recv_errors, read_loop}
use poholos.Udp.Streaks.{IsTaken, streak, after, read_loop_lem}
use poholos.Cli.{parse_outgoing}
use poholos.Cli.Lines.{Parses, parse_outgoing-Parses}
use poholos.Cli.Chat.{Chat, Event, typed, heard}
use poholos.Cli.Apt.{IsChat, IsEvent}
use poholos.Transports.{Transport, udp, ble}
use poholos.Cli.Main.{TransportKind, udp_kind, Args, Serves, main, main-Serves, node_of_args}
use poholos.Tests.Data.{hi, ping_bytes, ping_bytes-IsByte}
use poholos.Tests.Routers.{cache, node, node-IsRouter}

abbrev ping_frame : Frame
ping_frame = record { len = 9; buf = ping_bytes }

pub hi-IsChar : All IsChar hi
hi-IsChar = (omega arith, (omega arith, tt))

parse_outgoing-Parses_example : Parses 65535 7 hi (parse_outgoing 65535 7 hi)
parse_outgoing-Parses_example =
    parse_outgoing-Parses 65535 7 hi (omega arith) (omega arith) hi-IsChar

abbrev pub chat : Chat cache
chat = record { router = node; seq = 65535; transport = ble (record { out = []; alive = true }) }

pub chat-IsChat : IsChat cache chat
unfolding poholos.Router.new
chat-IsChat = record { routes = node-IsRouter; seq_fits = omega arith; local_fits = omega arith }

abbrev events : List Event
events = typed hi ∷ heard ping_frame ∷ []

events-IsEvent : All IsEvent events
unfolding IsEvent
events-IsEvent = (hi-IsChar, (ping_bytes-IsByte, tt))

-- `al`.
abbrev chosen : Args
chosen = record { name = some (97 ∷ 108 ∷ []); id = none; transport = udp_kind }

abbrev opened : TransportKind → Option Transport
opened kind = some (udp (record { broadcast = []; answers = false ∷ [] }))

main-Serves_example :
    Serves cache
      (node_of_args chosen 7)
      (opened udp_kind)
      (main cache 22 chosen 7 opened 65535 events)
main-Serves_example =
    main-Serves cache 22 chosen 7 opened 65535 events refl (omega arith) events-IsEvent

-- Two errors and a datagram of a neighbour.
abbrev reader : Reader
reader = record { consecutive_errors = 0; sent = [] }

abbrev received : List Received
received = failed ∷ failed ∷ datagram ping_bytes true ∷ failed ∷ []

received-IsTaken : All IsTaken received
unfolding IsTaken
received-IsTaken = (tt, (tt, (refl, (tt, tt))))

streak-received : streak 0 received ≡ some 1
unfolding streak
streak-received = refl

read_loop_lem_example :
    (read_loop reader received ≡ some (after reader 1 received, true))
    × (read_loop reader
          (received ++ (replicate (max_consecutive_recv_errors - 1) failed ++ received))
        ≡ some (
          record (after reader 1 received) { consecutive_errors = max_consecutive_recv_errors },
          false,
        ))
read_loop_lem_example =
    read_loop_lem reader received received 1 (omega arith) received-IsTaken streak-received
