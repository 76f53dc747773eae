-- ===== src/Lib.antt =====
-- A model of net-cat, a TCP chat server with rooms, queues, moderation and daily logs, written in
-- Go. A definition keeps the name of the Go function in this language's spelling: cmdKick of
-- server/commands.go is cmd_kick.
--
-- The parts and where they are modelled:
--
--   Port         main.go: its arguments and isValidPort.
--   Models       models/message.go: messages, their display (Models.Format) and the log lines
--                (Models.Format.format_log_line, Models.Parse.parse_log_line).
--   Cmd          cmd/commands.go: the registry of commands and the command parser.
--   Client       client/client.go: a connection's state and setters; the write loop (Client.Write),
--                input (Client.Read), how they keep in step (Client.Continuity), and what a read
--                returns (Client.Lines).
--   Logger       logger/logger.go: the daily files, on a disk that maps paths to contents.
--   Server       server/server.go: the state; Server.Rooms is server/room.go, Server.Clients
--                server/clients.go, Server.Moderation server/moderation.go, Server.Admins
--                server/admins.go, Server.History server/history.go, Server.Commands
--                server/commands.go, Server.Operator server/operator.go, Server.Session, its
--                child Steps and Server.Names server/handler.go, and Server.Shutdown,
--                Server.Heartbeat and Server.Listener the Shutdown, startHeartbeat, Start,
--                acceptLoop and startMidnightWatcher of server/server.go.
--   Server.Index, Server.Consistency
--                the name indexes as functions, what operations do to them, and their
--                consistency across the handlers.
--   Server.Rights
--                who is an admin, muted, banned or blocked, across the commands.
--   Server.Course, Server.World
--                all connections, the operator, the heartbeats, midnight and a shutdown as one
--                step relation (World), and what every operation keeps from any point of a run
--                to a later one (Course).
--   Base         shared helpers: Go strings as lists of bytes, Go maps as association lists, the
--                heap of clients, decimal printing, insertion sort.
--   Examples     concrete inputs.
--
-- How state is modelled. A client is an address in the server's heap, as a *client.Client is, so
-- a change is seen through every map that holds it. Every operation takes the server and returns
-- it. A handler is one step with one reading of the clock, except where it blocks or gives way:
-- Server.Session is a state machine whose phases are the points where handleConnection waits for
-- input, for admission, or stands between the capacity check and JoinRoom. The locks, which make
-- each method atomic, are not modelled, so of the interleavings only those between steps are:
-- Server.World.Step lets any connection, heartbeat, the operator, midnight or a shutdown go next.
-- The gap between the check of the room and JoinRoom in cmdSwitch and cmdCreate is a function of the
-- server in Server.Commands.Gap; in the dispatch it is empty. Where a select has several branches
-- ready (waitForRoomAdmission), the branch taken is an argument of the step (Signal). A new
-- connection's client stands at an address where the heap has a client as NewClient makes it. The
-- order in which Go visits a map is the order of the association list.
--
-- Numbers are natural: instants are nanoseconds, and nothing in the program subtracts a later
-- instant from an earlier one; a configured duration is not negative. A port number
-- stays below 2^20 while it is read, so no machine integer overflows.
--
-- Fuel: digits n runs n + 1 rounds and each divides by ten (value-decimal); trim_left runs as many
-- rounds as the text has bytes, and each takes one. All other loops are structural.
--
-- Parameters: read_time stands for fmt.Sscanf with the timestamp's format and time.Date.
--
-- Sockets, timers and the goroutines around them are the events that they deliver: a round of
-- startHeartbeat takes the outcome of its probe, a round of acceptLoop what Accept returns, a round
-- of startMidnightWatcher or StartOperator what its select or its scanner delivers, and a round of
-- the grace period of Shutdown the instant and the clients that it finds (Server.Shutdown.Grace).
--
-- Not modelled: when a timer fires, signals, write errors of a connection, the
-- warnings on the standard error, and the JSON text of the admins file, which is the list of names
-- that it holds.
pub mod Base
pub mod Models
pub mod Cmd
pub mod Client
pub mod Logger
pub mod Server
pub mod Port
pub mod Examples
