-- ===== src/Lib.antt =====
-- goreverselb: a reverse load balancer. A client behind a firewall opens a session to the tunnel
-- service and names a service; the service listens on a port for it, and a connection to that port
-- is proxied over one of the sessions that are registered for the service's instance.
--
-- The parts and the code they model:
-- - Pool: pkg/pool.go. PoolInts, NewPoolForRange, GetElement and ReturnElement. `range` over a map
--   starts anywhere, so the place where it starts is an argument.
-- - Types: the records of pkg/types.go. Wire: sendSerializedObject and readFrame of that file.
-- - Server: MuxTunnelService of pkg/muxtunnel.go. Server/State holds its state, in which a pointer
--   to a frontend is a number, its place in `heap`, since a handler keeps the pointer while the map
--   gets another. Server/Access is parseServiceContext, authorize and sendResponse; Server/Register
--   is the first locked section of handleStream with startFrontend; Server/Stream is handleStream
--   around it (`open_stream` to the wait, `close_stream` from it) and the end of an accept loop;
--   Server/Proxy is doProxy, connectBackend and the dispatch of an accepted connection. The mutex
--   makes a locked section one step; Server/System runs the steps of all handlers and accept loops
--   in any order. A step between unlocking and sending the response is not split off, since it
--   writes no shared state.
-- - Server/Sound is the invariant of the state and its proof per operation; Server/View is the
--   specification: the session behind a user, a service, an instance and a remote address, and what
--   each operation does to it. Server/Idle is the invariant that a handler waits for every session
--   that is registered, and what is left when the sessions have ended.
--   Server/Story is the specification of whole runs: what each event may do to that map of sessions.
--   Server/Ports and Server/Deaf are about a listener that does not start.
-- - Relay: copybytes and the end of doProxy of pkg/muxtunnel.go. The two copies and doProxy are three
--   goroutines with program points, whose moves come in any order; pkg/muxtunnelClient.go has the
--   same code.
-- - Ssh: loadOrCreateSSHKey, the addresses of a channel and the handlers of handleSSH in
--   pkg/muxtunnel.go. The SSH library is the record Library.
-- - Sniff: getSNITarget, tryTLSDecode, tryProxyDecode and tryHTTPProxyDecode of pkg/muxtunnel.go,
--   and the preamble of cmd/goreverselb/stdinProxy.go. The reads of golang.org/x/crypto/cryptobyte
--   are the fields of a record, their documentation is `IsDocumented`, and Sniff/Cursor/Concrete
--   gives reads that satisfy it.
-- - Client: MuxTunnelClient of pkg/muxtunnelClient.go; what the network answers is the record Link.
--   Client/Joined puts a client and the server together. Client/Workers is the goroutines of
--   NewMuxTunnelClient with addBackendConnection in parts and Close between them; Client/Stream is
--   handleStream and doProxy, and Client/Stream/Delivery puts them behind doProxy of the server.
-- - ServiceGroup: pkg/muxtunnelClientServiceGroup.go. ServiceGroup/Ports and ServiceGroup/Gone are the
--   two loops of reconcileTunnels, ServiceGroup/Settled is the invariant between reconciliations, and
--   ServiceGroup/Contract the specification of ReconcileServiceGroup; ServiceGroup/Order is about the
--   order in which `range` visits the new services, and ServiceGroup/Fresh says which client a port
--   asks for. A panic is `none`, and so is a nil pointer to a new service.
-- - Rest: GetServices of pkg/muxtunnel.go and getServices of pkg/restapi/restapi.go; Rest/Api is the
--   routes, help and Close of that file.
-- - Config: pkg/helpers/configStorage.go and how server() of cmd/goreverselb/server.go loads and saves
--   the configuration. The encoders are the record Codecs; Config/Concrete gives one that satisfies
--   what is documented.
-- - Cli: the commands of cmd/goreverselb with their parameters. Cli/Tunnel is client.go, Cli/Number
--   its strconv.Atoi, Cli/StdinProxy is stdinProxy.go, Cli/Group is servicegroup.go, and Cli/Serve is
--   server() with the failures of NewMuxTunnelService. Cli/Flags is the tables of flags in main, and
--   Cli/Trial the configuration and the tunnels of cmd/main.go.
-- - Cert: pkg/certHelper/certHelper.go. The packages that it calls are the record Crypto,
--   Cert/Documented is what they promise, and Cert/Concrete gives some that satisfy it.
-- - Base: what all parts share: library names, Boolean tests, lists and maps over native numbers.
--
-- Loops over lists recurse on the list. The two loops of tryTLSDecode recurse on fuel, the length of
-- what they walk; every round reads at least one byte. Bytes are numbers; a length that the code
-- keeps in uint8 or uint16 is taken modulo 2^8 or 2^16. Ports are natural numbers.
--
-- Not modelled: what the network does (dialing, listening, copying), which appears as the Booleans
-- of Env, Calls and BackCalls; the contents of JSON texts; TLS and the server of the SSH library;
-- logs; time, of which only whether a read deadline is armed is kept, so that a goroutine that sleeps
-- or waits for an answer makes a move at some time; ports below zero, where the tunnel command stops
-- to be followed; the message broker of pkg/pubsub/nats.go and the log adapter beside it, which only
-- pass settings and texts on to libraries.
pub mod Base
pub mod Cert
pub mod Cli
pub mod Client
pub mod Config
pub mod Pool
pub mod Relay
pub mod Rest
pub mod Server
pub mod ServiceGroup
pub mod Sniff
pub mod Ssh
pub mod Types
pub mod Wire
