-- ===== src/Lib.antt =====
-- wc3ts, a proxy that lets Warcraft III LAN games be found and joined over Tailscale.
--
-- The program listens to the Tailscale daemon for peers (tailscale/), asks each of them, and this
-- machine, for games over UDP (peer/manager.go), keeps the games that answer in a registry (game/),
-- announces the remote ones to the local network as its own (lan/), and relays the TCP connections
-- of players who join them to the hosts (proxy/). It answers the searches of other peers with the
-- local games (peer/responder.go). cmd/wc3ts/run.go connects the parts: the registry's `onChange`
-- feeds the broadcaster and the terminal interface (tui/), and the discovery's feeds the manager and
-- the interface, whose keys call back into the manager. Two further commands ask given hosts for
-- games (cmd/wc3ts/probe.go) and print the version (cmd/wc3ts/version.go).
--
-- Files. Prelude has the shared names, lists over the native numbers, and the association lists
-- that stand for Go maps; a value of `Walk` is the order in which `range` visits a map, and every
-- theorem about a map loop is for all of them. Text and Net are what the code uses of `strings`,
-- `strconv`, `net/netip` and `net`. W3gs names the packet fields in use of the package
-- gowarcraft3, which is not part of the repository; its decoder is a parameter. Then
--   Game        game/game.go        `key` is Key, `is_stale` is IsStale
--   Game.Registry  game/registry.go `add`, `remove_game`, `expire`, `find_by_host_counter`, ...
--   Lan         lan/broadcaster.go  `broadcast_games` is broadcastGames, with its two loops
--   Tailscale   tailscale/discovery.go  `extract_peer`, `update_from_net_map`, `follow` is Run
--   Peer        peer/manager.go and peer/responder.go  `probe_all_peers`, `receive_loop`, ...
--   Config      config/config.go    `parse_version`, `format_version`
--   Version     version/version.go  `get_info` is Get, `info_text` is String
--   Relay       proxy/tcp.go        `relay`, the two copy loops under an interleaving
--   Proxy       proxy/tcp.go        `handle_connection`, `read_join_packet`, `accept_loop`
--   App         cmd/wc3ts/run.go    `init_services`, `app_step` is one event of the running program
--   App.Setup, App.Services  cmd/wc3ts/run.go  the set-up, and the services that are started
--   Program     cmd/wc3ts/run.go with tui/  `serve` is an event of the services, `receive_next` a
--     round of the event loop, `perform` what the callbacks of runExec do
--   Program.Race  the loops of peer/manager.go over the peers, while tui/update.go sorts them in place
--   Network     cmd/wc3ts/run.go on several machines: `occur` is an event on one of them, `deliver` the
--     arrival of a reply, `say` a datagram of something else, which `said` keeps
--   Probe       cmd/wc3ts/probe.go  `probe_exec` is Exec, `receive_reads` the loop over the responses
--   Command     cmd/wc3ts/main.go, version.go and run.go  `main`, `run_command`, `version_lines`
--   Sorting     what tui/update.go uses of `sort` and of `<` on strings; `sort.Slice` is an interface
--   Tui, Tui.State  tui/update.go and tui/model.go  `update` is Update, `handle_key` is handleKey, ...
--   Tui.View    tui/view.go         `view` is View, `peer_view` and `game_view` the details
--   Logging     tui/handler.go      `handle` is Handle, `derive` a chain of WithAttrs and WithGroup
-- and under each of them the modules with its theorems. Tests has runs of the code and the
-- instances of the theorems.
--
-- Conventions. Sockets, locks, tickers and the handles of clients are no fields of the records that
-- stand for the code's structs. A string is the list of its bytes. A method on shared state takes
-- the state and returns the new one beside its result and what it sends or whom it calls back; the
-- locks make each method one step, so that threads are sequences of steps: the theorems on
-- histories are for all sequences. One slice is shared without a lock, that of the peers, which the
-- interface sorts: in Program.Race each read of it is a step, and elsewhere the interface has a
-- copy. A log line is an effect in Program only. A failed write is only logged by the code, so that
-- a packet is what is handed to the connection. Times are numbers of nanoseconds, and a clock that
-- a loop reads repeatedly is a function. Numbers of 32 and 16 bits are natural numbers; where the
-- code takes bytes of them, the remainder is written out. Every loop is structural, over a list of
-- what arrives; no fuel is used, but that the highest bit of a number of hours is looked for among
-- 22, more than a duration has.
--
-- All flag sets have `flag.ExitOnError`: at arguments that it cannot parse the flag package ends the
-- process with the exit code 2, and `main` prints nothing. `float64` occurs in `formatDuration` only,
-- where the rounding of the hours is written out.
--
-- Where a part waits, for packets, keys or the end of its context, a list holds what comes, and a
-- part that has not ended says so: theorems that it ends suppose that the list has what it waits for.
--
-- On several machines, datagrams may be lost, be late or come twice, and a search may come from
-- anyone; what is supposed is that the source address of a datagram is that of its sender.
--
-- Not modelled: the goroutines' scheduling beyond the order of steps; colours and widths, which are
-- fields of a style; the code of gowarcraft3, of the Tailscale client, of ffcli and of the terminal
-- libraries, whose tables, styles and event loop are interfaces; `net.ParseIP` and the name
-- service, which are fields of a record; IPv6 zones.
pub mod Prelude
pub mod Text
pub mod Net
pub mod W3gs
pub mod Game
pub mod Lan
pub mod Tailscale
pub mod Peer
pub mod Config
pub mod Version
pub mod Relay
pub mod Probe
pub mod Proxy
pub mod App
pub mod Sorting
pub mod Tui
pub mod Program
pub mod Network
pub mod Command
pub mod Logging
mod Tests
