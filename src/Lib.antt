-- ===== src/Lib.antt =====
-- A model of gremlind, a daemon that gives authenticated clients GRE tunnels: their inner addresses,
-- session keys and interface names, over a control channel with an encrypted handshake.
--
-- The parts and how they interact: the server (internal/control/server.go) admits a connection,
-- frames and decrypts its messages (internal/control/codec.go, secure.go), and asks the session
-- manager (internal/session/manager.go) for a session. The manager takes an inner address from the
-- pool (internal/ippool/pool.go) and names the interface (internal/gre/name.go). The configuration
-- (internal/config/config.go) pins interface names and inner addresses to clients. A session's
-- interface is created and removed through the broker (internal/provisionrpc/rpc.go), a process
-- that checks each request and does it with internal/gre/link_linux.go over the netlink messages
-- of internal/gre/netlink_linux.go; internal/mssclamp/mssclamp.go installs the clamping rules.
--
-- Prelude            integers, results, Go maps and bytes that the other files share.
-- Net                `netip.Addr` and `netip.Prefix`: the part of net/netip that the sources use.
-- Pool               internal/ippool/pool.go. Defs has `New`, `Pin`, `Allocate`, `AllocateSpecific`,
--                    `Release` and `InUse`; Scan, Allocation and History have what they promise.
-- Control.Proto      internal/control/proto.go: messages, types and their constants.
-- Control.Codec      internal/control/codec.go: `enc`, `dec`, and `marshalPayload` and
--                    `unmarshalPayload` of each message. Grammar is an independent parser.
-- Control.Frame      the frames of codec.go: `WriteMessage`, `writeFull`, `ReadMessageLimited`, and
--                    `looksLikeControl` of server.go.
-- Control.Secure     internal/control/secure.go: `secureChannel` and its plain frames.
-- Control.Admission  `Serve`, `reserve` and `release` of server.go as interleaved steps.
-- Control.Handshake  `handshake` of server.go over its environment, and what each end relies on.
-- Control.Dialer     `Client.Handshake` of internal/control/client.go.
-- Control.Keepalive  `keepaliveLoop` of server.go.
-- Control.Identity   internal/control/identity.go, and `SecretFor` of internal/auth/auth.go.
-- Gre                internal/gre/name.go, `Overhead` and its variants of internal/gre/link_linux.go, and
--                    `ifName` of manager.go.
-- Gre.Link           `Ensure`, `Remove`, `RemovePrefix`, `RemoveNamedGRE` of
--                    internal/gre/link_linux.go, over a record of the kernel's operations. Kernel
--                    has what Ensuring, Unwinding, Building and Removing rely on.
-- Gre.Netlink        internal/gre/netlink_linux.go as bytes: Message builds attributes, Parse reads
--                    them, Create has `createGRE`, Requests the other requests, Links and Exec what
--                    reads the kernel's answers; the byte order of the host is a parameter.
-- Provision          internal/provisionrpc/rpc.go: Checks has the broker's validation, Broker its
--                    `handle`; Tracking has requests one after the other, Interleaving several at once.
-- Session            internal/session/manager.go. Defs has the state; Leases has `allocInnerLocked`,
--                    `leaseAvailableToLocked` and the purge; Mtu has the MTU; Registry has the
--                    critical sections. Consistency states the invariant that Sections,
--                    Registering, Establishing and Ending keep, and Runs interleaves the sections.
-- Config             `ValidateServer` of internal/config/config.go over parsed fields. Loading has
--                    `ApplyDefaults`, `validate`, `AdminMode` and `Load` behind the YAML.
-- Config.Clamp       `MSSClamp`, its defaults and its validation in config.go.
-- MssClamp           internal/mssclamp/mssclamp.go: Rules has the arguments of the commands, Iptables
--                    and Nftables how they are run, over a runner of commands; Expected writes
--                    the rules of a session out.
-- Health             `HealthCheck` of internal/config/config.go and internal/healthcheck/healthcheck.go.
-- Tests              the theorems and the definitions on concrete inputs.
--
-- State: a method takes the state and returns it. What runs under one mutex is one step; what other
-- goroutines may do in between is a list of such steps. A Go map is an association list without
-- order, a Go string is its bytes, an `int` is an integer, a word keeps its width.
--
-- Fuel: `Allocate` and the loop of `allocInnerLocked` run on the size of the pool's prefix, and the
-- theorems on them show that no round beyond it is needed. `%x` runs on 8 digits, which a uint32
-- has at most. `randomKeyLocked` and `writeFull` run on the answers of the random source and of the
-- writer. `parseAttrs` and the messages of `nlExecProto` run on the length of the bytes, of which
-- each round takes some. The removal of a rule by iptables runs until the command fails: the fuel
-- is an argument, and the theorem that the rules are gone asks for as much as there are copies.
--
-- Not modelled: the kernel and its sockets (they are parameters with laws), the FOU requests of
-- internal/gre/fou_linux.go, processes (hooks, ping, and what nft and iptables do), the standard
-- library's cryptography (an AEAD is a parameter with its laws, the key derivation a function),
-- time-outs and logging; the dialer's keepalive loop, the YAML of config.go and its `LeaseAddrs`, the
-- admin socket, hardening, and cmd/gremlind.
pub mod Prelude
pub mod Net
pub mod Pool
pub mod Control
pub mod Gre
pub mod Session
pub mod Config
pub mod Health
pub mod Provision
pub mod MssClamp
pub mod Tests
