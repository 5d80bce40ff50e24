-- ===== src/Lib.antt =====
-- Phantom Grid: a server that is invisible to whoever has not sent it an authorizing packet.
--
-- The program. A client sends one UDP datagram (single packet authorization, SPA). The listener in
-- internal/spa/handler.go reads it and starts a goroutine that parses it (internal/spa/packet.go),
-- verifies its address, timestamp, one-time password (internal/spa/totp.go), signature and novelty
-- (internal/spa/verifier.go), and puts the sender into the whitelist map of the eBPF program
-- (internal/spa/map_loader.go). The client is pkg/spa with cmd/spa-client. Everything else meets a
-- honeypot (internal/honeypot, with the banners of internal/mirage) that plays one of six services.
-- What happens is logged (internal/logger), exported (internal/exporter) and shown on a dashboard
-- (internal/webdash). A proxy with mutual TLS (internal/proxy) stands in front of a service. The agent
-- (internal/agent) attaches the eBPF programs (internal/ebpf) and starts all this as cmd/agent says;
-- cmd/config-gen writes the tables of ports for the programs, and cmd/phantom is a terminal interface.
--
-- The files, and the code that each is about.
--   Prelude: numbers, machine words, bytes, maps, addresses and channels of Go. Prelude.White is
--     bytes.TrimSpace on raw bytes, with the white space of Unicode.
--   Config.Spa: internal/config/spa.go (DynamicSPAConfig, SPAMode, GetSPAMode).
--   Config.Keys: LoadKeysFromFile and SaveKeysToFile of internal/config/spa.go.
--   Config.Ports: internal/config/ports.go (the tables, FindPortDefinition, ValidatePorts).
--   Config.Generator: cmd/config-gen/main.go and internal/config/constants.go. A generated file is a
--     list of lines, whose macros and tests are lines of their own.
--   Spa.Crypto: the parameter for HMAC, SHA-256 and Ed25519, with its laws.
--   Spa.Totp: internal/spa/totp.go (TOTP, GenerateTOTP, ValidateTOTP, GetTOTPTimeWindow).
--   Spa.Packet: internal/spa/packet.go (CreateAsymmetricPacket, CreateDynamicPacket,
--     ParseSPAPacket, VerifyAsymmetricPacket, VerifyDynamicPacket).
--   Spa.Verifier: internal/spa/verifier.go; VerifyPacket is parse_spa_packet, check_packet and
--     check_replay, which is the section under the mutex.
--   Spa.MapLoader: internal/spa/map_loader.go (LoadConfiguration, WhitelistIP, RemoveWhitelistIP).
--   Spa.Handler: processPacket and isStaticPacket of internal/spa/handler.go; Starting has the lines
--     that its Start logs.
--   Spa.Listener: handlePackets of internal/spa/handler.go, a step relation of the loop and its
--     goroutines over the shared buffer.
--   Spa.Manager: internal/spa/manager.go, the loop over the counters by its ticks.
--   Spa.Client: pkg/spa/client.go, pkg/spa/client_dynamic.go and processSPARequest of
--     cmd/spa-client/main.go; Delivery is about the way from there to the whitelist of the server.
--   Webdash.Auth.Grants: a specification of the sessions in internal/webdash/auth.go.
--   Webdash.Auth, Webdash.Settings, Webdash.Fleet, Webdash.Server: the files of that name in
--     internal/webdash.
--   Logger.Event, Logger.Manager: internal/logger/event.go and internal/logger/manager.go.
--   Exporter.Elk: internal/exporter/elk.go, where a flush is two steps, since the mutex is free
--     while the batch is sent.
--   Exporter.Elk.Bulk: BulkIndex of internal/exporter/elk.go, over the exchanges of the network.
--   Proxy.Mtls: handleConnection of internal/proxy/mtls.go.
--   Honeypot.Trap, Honeypot.Banners: internal/honeypot/honeypot.go, internal/honeypot/handler.go and
--     internal/mirage/banners.go (Start, handleConnection, Handle, the choice of a service).
--   Honeypot.Text: what the services use of strings and fmt.
--   Honeypot.Filesystem, Honeypot.Contents: internal/honeypot/filesystem.go.
--   Honeypot.Ssh, Honeypot.Ssh.Shell, Honeypot.Screens: internal/honeypot/ssh_handler.go; a command
--     is a function of the session, and the loop is handle_ssh over the reads.
--   Honeypot.Mysql, Honeypot.Sql: internal/honeypot/mysql_handler.go, with the buffer that keeps the
--     bytes of earlier reads.
--   Honeypot.Http, Honeypot.Portals, Honeypot.Pages: internal/honeypot/http_handler.go.
--   Honeypot.Ftp: handleFTP and handleTelnet of internal/honeypot/handlers.go.
--   Honeypot.Resp, Honeypot.Redis: internal/honeypot/redis_handler.go (parseRESP, handleRedis).
--   Network.Interface: internal/network/interface.go.
--   Agent: internal/agent/agent.go (New, Start). Agent.Stopping: Close, with acceptLoop and Close of
--     internal/honeypot/honeypot.go. Agent.Trapping: the goroutine of Start.
--     Agent.Programs: internal/ebpf/loader.go. Agent.Fleet:
--     internal/agent/fleet_client.go.
--   Commands.Setup: cmd/agent/main.go, from the flags to the configurations of the agent, of the
--     exporter and of the proxy.
--   Commands.Console, Keys, Agents, Sending, Settings and Menus: cmd/phantom/main.go. Each function
--     is a state passing over the terminal; Menus has the loops, whose rounds are counted.
--   Tests: a toy instance of the parameters, and the theorems at concrete inputs.
-- The modules below a component hold its proofs and are named for what they prove.
--
-- Conventions. A string is the list of its bytes. An int64 is its bit pattern, a number below
-- 2 ^ 64, with wrap-around written out. A run-time panic is the result `none`; an error is a value
-- of a data type. What the clock returns is an argument, where a function reads it several times as
-- a function of the number of the call; so are what crypto/rand yields, the uptime and the contents
-- of files. Cryptography, the eBPF maps, the database and encoding/json are parameters; the laws
-- on them are named hypotheses (IsLawful, IsMap) that hold of the toy instance. A mutex makes a
-- critical section one step. Loops recurse on a list, or on the number of rounds that their bounds
-- fix. validate_loop, the loop of ValidateTOTP as it is written, runs on fuel; the fuel is one more
-- than the number of its rounds.
--
-- The text of the terminal is a list of code points. Its reads are a list, its history has the newest
-- event first, and what the system answers is a function of that history. The loops of the menus are
-- run for a number of rounds. sort.Slice and the order of a range over a map are parameters, of which
-- a theorem assumes that they permute (IsOrder); an exchange of the network reads the body of its
-- request from the front (Consumes). The goroutine that starts the honeypot is modelled by the number
-- of steps that it has taken when Start ends, and later.
--
-- Not modelled. The eBPF programs, which are in C. Of internal/proxy/cert.go and the generators of
-- keys in internal/config/spa.go and cmd/spa-keygen, all is calls of crypto/x509 and crypto/ed25519.
-- Of the handler and the honeypot, the opening of sockets, with deadlines and pauses; of the commands,
-- the parsing of flags, signals, the usage texts and the form of cmd/spa-client with its server; of
-- the dashboard, the provisioning of certificates and the static files. The services of the honeypot
-- are modelled on ASCII text.
pub mod Prelude
pub mod Agent
pub mod Commands
pub mod Config
pub mod Spa
pub mod Webdash
pub mod Logger
pub mod Exporter
pub mod Proxy
pub mod Honeypot
pub mod Network
pub mod Tests
