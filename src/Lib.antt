-- ===== src/Lib.antt =====
-- The verification library of mqtt-tunnel, which carries TCP connections over an MQTT broker: a client
-- (`StartStdio`) asks a server (`StartRemote`) on a control topic for a tunnel, and the two then
-- exchange data on two topics of their own.
--
-- Parts, and the files that model them:
--   * Control, Control/Random: tunnel/control.go, the control packets and random strings.
--   * Channel: tunnel/safech.go, sends on buffered channels; a channel is the list of its contents.
--   * Config and its children: tunnel/config.go, with `url.Parse`, the file system and the JSON decoder
--     as arguments. Config/Comments and Config/Commas clean the text, Config/File is `ReadConfig`.
--   * Reloader and its children: tunnel/reloader.go, the watcher of the configuration file with its
--     timer; time goes by in seconds, and a run keeps its history.
--   * Stdio: tunnel/stdio.go, standard input and output as a connection. The two critical sections of
--     `Read` and `Write` are steps of their own. Stdio/StdioTunnel is the `Start` of `StdioTunnel`, which
--     no code of the program calls.
--   * World: the structs `Tunnel`, `mqttBroker` and `MQTunnel` as one state, tunnels on a heap since
--     three maps and the broker share them by pointer. World/Effects: the answers of the MQTT client,
--     the dialler, the clock and the random number generators (`Env`), and what the program does to
--     them (`Effect`). World/Monad: steps that may return an error (`M`, `Outcome`).
--   * Broker and its children: tunnel/mqtt.go. Broker is topics and subscribing, Broker/Filter is
--     `controlPacketReceived`, Broker/Message is `onMessage`, Broker/Ping is the manual keepalive,
--     Broker/Options is `newTLSConfig` and `getMQTTOptions`, Broker/Connect is `connectWithRetry`,
--     `NewMQTTBroker` and `onConnect`.
--   * Tunnel and its children: tunnel/tunnel.go and tunnel/tcp.go. Tunnel/Io has the rounds of
--     `mainLoop` and `handleRead`.
--   * MqTunnel: `handleControl` and `closeAllTunnels` of tunnel/mqtunnel.go; MqTunnel/Loops: the cases
--     of the two `select` loops and the timeouts. MqTunnel/Races has parts of these as steps of their
--     own, for an ack that comes between them; MqTunnel/Unconfirmed is a request that no confirm
--     follows.
--   * System: the process as a state machine. An event is one atomic step of one goroutine; any order
--     of events, with any answers of the environment, is a run. System/Invariant follows the state
--     through it, System/Lifecycle is the state machine of one tunnel ID on a server or a client,
--     System/Transport is the data path between two processes, over a network that keeps the order
--     of the messages of a topic and may lose any of them, as QoS 0 allows, to a connection on which
--     writes may fail; System/Transport/EndToEnd puts it behind the handshake, and
--     System/Closing is the end of a tunnel on both sides, System/Refusing a request that is refused,
--     System/Reloading a server that gets a new configuration. MqTunnel/Closing/Order lets the loops
--     of `closeAllTunnels` range over their maps in any order.
--   * CommandLine and its children: main.go. CommandLine is `crlfWriter` and `expandServerAddr`,
--     CommandLine/Start is `main` up to the tunnel, with flock.go, CommandLine/Keepalive its defaults,
--     with platform_default.go and platform_termux.go, CommandLine/Reload the function that the
--     watcher calls, CommandLine/Log is `setupLog`, and CommandLine/Launch is the whole of `main`, with
--     `NewMQTunnel`. It ends in a state of System, and what the reload function accepts is the event
--     `config_changed` there.
--   * Std: `strconv.Itoa`, `strconv.Atoi`, `net.SplitHostPort`, `strings.TrimSpace`, `strings.Split`
--     and `strings.Join` of Go's library. Base: lists, texts, association lists and integers.
--     Interleaving: two lists merged into one. Tests: concrete runs and instances of the theorems.
--
-- Bounds: loops are structural, over the list or the count that the code runs through; no fuel is
-- used but in `connectWithRetry`, whose ten attempts are the code's own bound, and in printing a number n,
-- where n + 1 rounds are enough for its digits. Capacities of channels are the code's. An `int` is ℤ, and
-- `Atoi` reports what is out of range; where a number from the configuration could still make the
-- code's arithmetic wrap (CommandLine/Log, Broker/Options), the file says what comes of it.
--
-- Not modelled, since it is text, input and output or settings of the run-time only: usage texts and
-- log output (main.go), `initPlatform` and version texts. `randTopic` (tunnel/control.go) is left out
-- since nothing calls it, and `start` (tunnel/mqtt.go) since nothing sends on the channel that it
-- reads. What a failed write has put out is not said. Interleavings inside an operation are left out
-- but in Stdio and MqTunnel/Races, so the dial between the two critical sections of connect_confirm is
-- part of one step. A tunnel's `mqttBroker` is the one broker object of the state: behind a
-- reload the code's older tunnels still hold the object of before, whose client is disconnected, and
-- the steps of their loops are not told apart from those on the new one.
pub mod Base
pub mod Std
pub mod Control
pub mod Config
pub mod World
pub mod Channel
pub mod Interleaving
pub mod Broker
pub mod Tunnel
pub mod MqTunnel
pub mod System
pub mod CommandLine
pub mod Reloader
pub mod Stdio
mod Tests
