-- ===== src/Lib.antt =====
-- localapp: a daemon that gives the development servers of one machine names under a local domain.
-- A service is registered through the Control Plane API (internal/control) with a port, a path and
-- the id of its process; the registry (internal/registry) keeps the registrations in memory and in
-- a file. The DNS server (internal/dnsd) answers every name under the domain with the loopback
-- address, the CA (internal/ca) issues certificates for those names, and the proxy
-- (internal/proxy) resolves the Host header and the path of a request to a registered service. The
-- output of a service goes to the log stream (internal/logstream), which the API and the dashboard
-- (internal/dashboard) serve; internal/scan finds ports that could be registered.
--
-- The files:
--   Base, Text, Keyed, Net, Json: what the parts share. A Go string is a list of bytes, `Str`; the
--     functions of strings, strconv and net that the source calls are written out. Text.Utf8: what
--     encoding/json makes of a string that is not valid UTF-8.
--   Registry, Registry.File, Registry.Store: internal/registry. The store and its file are a
--     `World`; an operation takes the failures of its save as a function of the step. The file is
--     the JSON tree that encoding/json writes, with U+FFFD for what is not UTF-8 in a string
--     (Registry.Store.Saved tells what a save keeps). Every method holds the lock, so it is one step.
--   Domain, Ca: internal/domain/domain.go and internal/ca/name.go.
--   Proxy, Proxy.Forward: internal/proxy/route.go and proxy.go.
--   Logstream: internal/logstream/store.go; Logstream.Stream: the events of sse.go; Logstream.Follow:
--     one reader of one service, over any interleaving of writes, wake-ups, timer ticks and
--     evictions; the text of an event passes through encoding/json.
--   Control, Control.Messages, Control.Handlers, Control.Logs, Control.Routing: internal/control/types.go
--     and server.go; a request carries its body as the JSON decoder reads it. Client: client.go.
--   Dnsd: internal/dnsd/dnsd.go. Scan: internal/scan/scan.go.
--   Config: internal/config/config.go.
--   Dashboard, Dashboard.Contents: internal/dashboard/dashboard.go and logs.go. A request is one
--     step; Dashboard.Streams also lets the two operations of a stream request on the counter come
--     between others.
--   Ca.Disk, Ca.Crypto, Ca.Root, Ca.Leaf: internal/ca/ca.go and leaf.go: the files of the CA, its
--     root, and the certificates of the hosts. A call holds the mutex, so it is one step. `Crypto`
--     is a record of the operations of the cryptography, `IsLawful` what they promise.
--   Cmd.Forwarder: cmd/localapp/log_forward.go; a send is in flight between its two critical
--     sections, and how it ends is part of the event. Cmd.Tail, Cmd.Follow: the last lines of a log
--     (logs.go, logcat.go), and a file that polls see as it is then. Cmd.Args: the names on the
--     command line (main.go, logcat.go, open.go). Cmd.Flags: parseArgs of main.go with the Parse of
--     package flag. Cmd.Install: cmd/localapp/install.go, with what its actions do to the machine.
--     Cmd.Remove: cmdRm of main.go, with the client's request and the daemon's answer. Cmd.Redirect:
--     the redirect to HTTPS of cmd/localapp/daemon.go; `is_ipv4` is net.ParseIP.
--   EndToEnd: a registered service through the DNS server, the CA and the proxy.
--   Tests: concrete runs.
-- The other files hold the theorems about the file that they stand below.
--
-- Numbers are natural numbers where the source cannot have negative ones; ports and process ids as
-- they arrive are integers. The offsets of the log are uint64, with their wrap-around; the theorems
-- on them assume that fewer than 2^64 bytes were written. The digits of a number are written with
-- its successor as fuel, which its length cannot exceed. The loop of drain has the length of the
-- file as fuel, and parseArgs the number of arguments: each round takes at least a byte or an
-- argument. All other loops are structural.
--
-- Arguments that stand for code outside the repository: `unicode` is strings.ToLower (in
-- Cmd.Install, strings.TrimSpace) on strings that are not ASCII, `fqdn` is the DNS library's Fqdn,
-- `join` is filepath.Join, and `Os` is what the operating system answers to a signal and to a
-- connection. `Crypto` stands for crypto/x509, crypto/tls, encoding/pem, crypto/rand and
-- net.ParseIP.
--
-- Not modelled: sockets, the TLS handshake, HTML templates with the rows of the error pages, the
-- flow of the daemon and of the commands that only print, the installer of the agent's document
-- (internal/skill), and the platform's commands: I/O or calls of libraries.
pub mod Base
pub mod Text
pub mod Keyed
pub mod Json
pub mod Registry
pub mod Net
pub mod Domain
pub mod Ca
pub mod Proxy
pub mod Logstream
pub mod Dnsd
pub mod Control
pub mod Client
pub mod Scan
pub mod Dashboard
pub mod Config
pub mod Cmd
pub mod EndToEnd
pub mod Tests
