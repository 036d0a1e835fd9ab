-- ===== src/Lib.antt =====
-- Verification of opn-box: the path of an address from a DNS answer to a packet filter table, and the
-- web services that configure mosdns, xray and hev-socks5-tunnel.
--
-- A DNS plugin (pkg/plugin) takes the addresses of a response, leaves out those that it has sent
-- lately, and sends the rest in one packet (pkg/protocol) over a Unix socket to the daemon
-- (cmd/pf-aliasd). The daemon keeps an expiry for each address of each table in the tracker
-- (pkg/ttlcleaner), calls the packet filter (pkg/pf) for the addresses that are new, and answers with
-- an acknowledgment. A timer sweeps the tracker and deletes what has expired.
--
-- The controllers are web services beside that path. Each keeps its state in files, generates the
-- configuration of its program from it, and runs commands that start and stop the program. The mosdns
-- controller generates the sequence that asks the plugin to send addresses, with the plugin's
-- arguments.
--
-- Base: shared names, Boolean tests, list lemmas, a result type, maps as association lists.
-- Net: addresses as byte slices; To4, To16 and String of Go's package net.
-- Protocol (pkg/protocol/protocol.go): Header, Message, Encode and Decode as encode and decode, which
--   give an error for each error of the source; RoundTrip, Accepted and Truncated relate the two.
-- Tracker (pkg/ttlcleaner/tracker.go): entries are references into a store, since the heap and the
--   tables share them; AddOrRenew, PopExpired, Delete, Flush, Stats are add_or_renew, pop_expired,
--   delete, flush, stats. Queue has entryHeap's methods, Heap Go's container/heap over them. A panic is
--   none. Invariant says what holds between calls, Methods, Expire and Flush relate the methods to the
--   map from table and address to expiry, Calls has sequences of them.
-- Pf (pkg/pf): the interface Device as a record; Mock is pf_mock.go, Freebsd is pf_freebsd.go over a
--   parameter for ioctl. Tables states what the daemon relies on where a device works.
-- Daemon (cmd/pf-aliasd/main.go): dispatchMessage as dispatch_message with a function for each
--   command, a round of handleConnection as handle_packet, a tick of runGCLoop as sweep. The device is
--   a parameter. Service has a step for each round of the daemon's loops, Runs what holds in every state
--   that they reach, Ending what comes after a signal, Collector several ticks, Races two connections
--   whose calls interleave, Delivery the plugin and the daemon wired together.
-- Plugin (pkg/plugin/pf_alias.go): newPluginFromArgs, QuickSetup, Exec, sendToAddDaemon, getConn,
--   putConn and Close. The socket is a parameter, a record of operations on a world.
-- PluginX (pkg/plugin_mosdns_x/pf_alias.go): the same plugin for another host; Exec hands over to the
--   next node, which is a parameter. It takes the types and the loops of Plugin.
-- Text: the parts of Go's packages strings, bufio, strconv and net/url that the controllers call.
-- Web: what the three controllers share: answers, processes, commands. Files states what they rely on
--   of files and commands.
-- Controller (cmd/mosdns-controller/main.go): the settings, and the host with its files and commands,
--   which is a parameter of all controllers. Config is generateMosdnsConfig; Config/Pipeline has mosdns
--   as a parameter, with what its documentation says of a sequence. Reading has countFileLines,
--   matchDomainInFile and readLastLines, Verdict is handleTestDomain, Verdict/Rules has the lines of
--   the rule files as the documentation of mosdns reads them, Handlers and Handlers/Service are the
--   other handlers, Startup is initDirectories and main up to the server.
-- Xray (cmd/xray-controller/main.go): AppData and what the handlers make of it. Links has the parsers
--   of node links over Json, Config is generateXrayConfig, Handlers has the handlers that change the
--   data, Handlers/Service the others with handleApplyConfig.
-- Hev (cmd/hev-controller/main.go): HevConfig, loadConfig, saveConfig and the handlers.
-- Httpserver (pkg/httpserver/server.go): dualListener.Accept, peekConn.Read and certManager as
--   dual_accept, peek_read and get_certificate, and the loop of net/http over Accept as serve, with the
--   number of its rounds given. Start is ListenAndServeDual with generateSelfSignedCert. The network, the
--   files and Go's crypto packages are parameters.
-- Tests: runs on small inputs.
--
-- Bytes, ports and counters are natural numbers; the wrap-around of the 16-bit and 32-bit fields, of
-- the sequence number and of the tracker's counters is written out. Times are nanoseconds. The sift
-- loops of the heap run on fuel, the length of the queue, which the theorems show to be enough; the
-- sweep's loop runs on the batch size, which bounds it in the source. A method that locks is one step.
-- The order of a range over a map is a parameter.
--
-- A handler of a controller is a function from the decoded request and the world to the world and the
-- answer; the lock that the source takes makes it one step. The ping of nodes, which gives up the lock
-- between, is two steps, ping_begin and ping_end. The fuel of trim_by is the length of the text, and that
-- of numeral the 19 digits of an int.
--
-- Not modelled: the interleaving of packets and ticks between the calls of the tracker and of the
-- device, but for one case in Daemon/Races, logging, the opening of sockets and devices, the deadlines
-- on the plugins' connections. Of the controllers: flags and the web pages, the texts of errors and of
-- the answers' explanations, the times of files, and the measuring of a ping. JSON, YAML, Base64, URLs,
-- HTTP, cryptography and strings.ToLower are parameters. The C daemon, the PHP of OPNsense and the
-- scripts are left out.
pub mod Base
pub mod Net
pub mod Text
pub mod Protocol
pub mod Tracker
pub mod Pf
pub mod Daemon
pub mod Plugin
pub mod PluginX
pub mod Web
pub mod Controller
pub mod Xray
pub mod Hev
pub mod Httpserver
pub mod Tests
