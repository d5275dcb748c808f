-- ===== src/Lib.antt =====
-- SerialHub: one process owns a serial port and shares it between terminals in
-- the browser and tools of an MCP client. The parts that this library models,
-- and how they work together:
--
--   * `Serial` is pkg/serial. `Serial.Config` is config.go: the configuration,
--     its translation to a driver mode (`ToMode`) and the text form that
--     `ParsePort` reads. `Serial.Manager` is manager.go: the fields of
--     `SerialManager` are the record `Manager`, and every critical section of
--     its mutex is one function on that record (`Connect`, `Disconnect`,
--     `Write`, `WriteIfSameGen`, `UpdateConfig`, `Close`,
--     `handleUnexpectedDisconnect` and what `reconnectLoop` does under it).
--     `Manager.Steps` interleaves them as a step relation. `Serial.Ports` is
--     the choice of the port to reconnect to, `Serial.Utf8` is the decoding
--     table of unicode/utf8 as `readLoop` uses it, and `Serial.Reader` is
--     `readLoop` itself, a function of what the driver's `Read` returns.
--   * `Buffer` is internal/buffer/buffer.go: the bytes that came in, kept for
--     the MCP tools, with a limit and observers. Every method holds the
--     buffer's mutex and so is one step.
--   * `Bridge` is pkg/bridge/bridge.go: it carries chunks from the manager's
--     channel to all terminals (with line ends converted) and to the buffer,
--     and chunks from the terminals to the port.
--   * `LogAgg` is internal/logagg/logagg.go: it gathers chunks in a window and
--     logs each window once, by a timer or when it is full.
--   * `Script` is pkg/mcp/tools/serial_script.go. `Script.Schedule` has the checks
--     of `ExecuteSerialScript` and the expansion of the timed writes,
--     `Script.Matching` is `process`: the data that arrives, the rules that
--     match it and the writes that answer, and `Script.Loop` is the event loop
--     with its results. A script writes through `write_if_same_gen` of the
--     manager.
--   * `Tools` is the other tools of pkg/mcp/tools: serial_connect.go,
--     serial_disconnect.go, serial_write.go, serial_status.go, serial_read.go
--     and serial_clear.go. Their other callers are the parameter `between`.
--   * `Serial.Reconnect` is `reconnectLoop` of the manager: the wait before
--     every try, the choice of the port, the attempt, and what ends the loop.
--   * `Web` is pkg/web/server.go and pkg/web/client.go: the clients of the
--     terminal and their queues. `Web.Commands` is
--     cmd/serialhub/command_handler.go, which the bridge calls for a command.
--   * `Instance` is the single instance. `Instance.Lock` and `Instance.Waiting`
--     are internal/instance/instance.go, the lock with its metadata file and the
--     search for a live master; `Instance.Election` is how
--     cmd/serialhub/serve.go makes a process the master or a proxy.
--   * `Proxy` is pkg/mcp/proxy.go: a session that forwards between a client
--     and the master, and what it hands over to the next.
--   * `Setup` is pkg/mcpsetup: configfile.go, with the edits of the tree of a
--     client's configuration, and `mergeJSON` of mcpsetup.go.
--   * `Configuration` is pkg/config/config.go and
--     cmd/serialhub/config_loader.go; `Configuration.Migration` is the search
--     for the file and its move from the old place.
--   * `Upgrade` is cmd/serialhub/upgrade.go: the comparison of versions, and the
--     upgrade itself in `Upgrade.Release`, which takes the program out of the
--     archive of a release (`Upgrade.Archive`) and replaces the running one
--     (`Upgrade.Install`).
--   * `Decimal` is what the code uses of strconv (`Atoi`, `Itoa`), and `Prelude`
--     holds bytes, integers and results. `Tests` runs the models on small
--     inputs.
--
-- Bytes and texts are lists of numbers, ports are numbers, and the driver, the
-- operating system and the callbacks are parameters: functions that give what
-- a call returns. A method on a pointer receiver is a function from the old
-- state to the new one and the results; `error` results are values with the
-- branch they come from. A compiled pattern of a script is a parameter too, the
-- function that finds its matches, and so is `World`: what a script sees of its
-- context, the clock, other goroutines and arriving data, at each look anew.
-- The generation counter is a machine integer of 64 bits and wraps, so theorems
-- that compare generations take fewer than 2^64 increments between. Loops over
-- bytes, chunks and entries are structural recursion. Two loops run on fuel:
-- `Decimal.digits` has n + 1 steps for n, which bounds the number of digits,
-- and the search for the last rune start has the three steps that
-- `utf8.UTFMax - 1` allows in the source.
-- The event loop of a script is the function of one round, and `run` is any
-- number of rounds. The loop of reconnection takes one given turn a round and
-- the election one given round, since what they wait for is the world's; the
-- election is bounded by the budgets of retries and takeovers that the source
-- counts, and the search for a free port by its ten further ports.
--
-- Not modelled: the tray icon, the message catalogue, the test doubles, the
-- transports of HTTP, WebSocket and MCP, the start and stop of the service, the
-- uninstaller, the log files, the client table, paths and external commands of
-- the setup, and the limit of an upgrade on a tar stream as a whole. They are
-- system calls, platform code or glue around the parts above. Goroutines appear
-- as the order of steps and not as threads, and the texts of log lines and
-- messages are left out.

pub mod Prelude
pub mod Buffer
pub mod Decimal
pub mod Instance
pub mod Proxy
pub mod Setup
pub mod Configuration
pub mod Web
pub mod Serial
pub mod Bridge
pub mod LogAgg
pub mod Script
pub mod Tools
pub mod Upgrade
mod Tests
