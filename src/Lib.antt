-- ===== src/Lib.antt =====
-- pg-k8s-proxy: a gateway that routes PostgreSQL connections by database name to the backends
-- that PostgresRoute objects of a Kubernetes cluster name. This library models its core.
--
-- The parts and how they interact. The table builder (src/internal/controller/routetable.go)
-- lists the routes whenever the cluster changes and publishes what Build (src/internal/registry)
-- makes of them: a table from database names to resolved routes, and a decision for every route.
-- A session (src/internal/proxy/session.go) negotiates with its client, looks the database up in
-- the table, dials the backend under the route's TLS policy, forwards the startup packet with the
-- target database, and relays. While it relays, it replaces the backend's cancellation key by one
-- of its own (src/internal/proxy/cancel.go, relay.go), by which a later CancelRequest finds its
-- backend. The server (src/internal/proxy/server.go) accepts connections, gives each a goroutine
-- that takes a slot and runs a session, and drains them at a shutdown. The builder tells the
-- status reconciler which decisions changed, and that one writes them into the routes' status;
-- the discovery reconciler generates routes from labelled Services. src/internal/config checks
-- the settings from which src/cmd/pg-k8s-proxy/run.go makes the gateway. The packets and messages
-- are those of src/internal/pgwire.
--
-- The files, with the code that each is about:
--   Common and its children: Boolean tests, lists, byte strings, signed integers, maps as
--     association lists, and the result type for a Go (value, error) pair.
--   Common.Families: families indexed by numbers, and sums over them.
--   Api: the types of src/api/v1alpha1/postgresroute_types.go and their two methods.
--   Config: the settings of src/internal/config, their defaults and Validate; Config.Trim is
--     strings.TrimSpace, Config.Environment is env.go, Config.Flags is BindFlags.
--   Wire.Io: io.ReadFull, bytes.IndexByte and binary.BigEndian as src/internal/pgwire uses them.
--   Wire.Startup: protocol.go; ReadStartupPacket is read_startup_packet, Encode is encode, and so
--     on.
--   Wire.Message: message.go; MessageReader.Next is next_message.
--   Registry.Address, Registry.Resolve: Route.Address, resolve and resolveTLS of registry.go.
--   Registry.Build, Registry.Order: Build and less of registry.go; Registry.Build.Rounds and
--     Winners carry the lemmas on a round of the loop and on who wins a name; Build.Champion and
--     Resolve.Fields say what the winner is and what a resolved route takes over from it.
--   Registry.Table: Table, NewStore and Store.Store of registry.go.
--   Registry.Table.Sorted: the lemmas on sort.Strings.
--   Registry.Errors: the texts of the errors of registry.go and resolver.go.
--   Registry.Client: ClientResolver of resolver.go.
--   Proxy.Negotiate: negotiate of session.go, over a client that is the bytes it sends.
--   Proxy.Dial: dialBackend, upgradeBackendTLS and verifyChainOnly of session.go, forwardCancel
--     of relay.go.
--   Proxy.Session: serve and handle of session.go and relay of relay.go.
--   Proxy.Relay: relayFromBackend and spliceToClient of relay.go.
--   Proxy.Cancel: cancel.go; a locked method is one step on the registry.
--   Proxy.Backoff: nextBackoff of server.go.
--   Proxy.Splice: relay of relay.go with its two goroutines, as a step relation.
--   Proxy.Server: New, Start, acceptLoop and drain of server.go with serve and the slots of
--     session.go, as a step relation on the state that their goroutines share; Proxy.Server.Books
--     and Moves keep its counters, Proxy.Server.Gate has the abstract gate that admits sessions.
--   Controller.RouteTable: the loop of RouteTableBuilder, as a step relation in which changes of
--     the cluster fall between any two steps.
--   Controller.RouteTable.Setup: SetupWithManager of routetable.go.
--   Controller.Status: applyConditions, resolveFailureReason and the wanted status of Reconcile,
--     of src/internal/controller/postgresroute_controller.go.
--   Controller.Status.Writing: Reconcile and equalStatus of the same file.
--   Controller.Notify: notifyChanged and decisionChanged of routetable.go.
--   Controller.Notify.Reasons: the lemmas on the texts of the errors that a decision carries.
--   Controller.Services, Controller.Discovery:
--     src/internal/controller/servicediscovery_controller.go, what it reads of a Service, and its
--     reconciler on a store of routes.
--   Controller.Discovery.Events: SetupWithManager of the same file, and its filter of events.
--   Health: New and handle of src/internal/health/server.go.
--   Gateway: newGateway, buildServerTLS, cacheOptions and readinessCheck of
--     src/cmd/pg-k8s-proxy/run.go.
--   Wiring: run of the same file, what it registers with the manager; Wiring.Command is the root
--     command of src/cmd/pg-k8s-proxy/main.go.
--   System: what the parts do together.
--   Tests: the model at concrete inputs.
--
-- State and errors. Stateful code passes its state on explicitly; a connection is a record of
-- what is to be read from it and what was written. An error is a value with one constructor for
-- each place that makes one. What the network, the TLS library, the Kubernetes client and the
-- random source do is a parameter: a record of functions and answers, on which nothing is assumed
-- unless a theorem says so.
--
-- Numbers and bounds. Bytes are natural numbers, and a theorem that needs them below 256 says so.
-- A 32-bit word is its natural number below 2 ^ 32; the fields that Go takes as int32 are
-- compared as such words, and int32 values of the cluster are integers. The loop of
-- parseParameters has one more round than the payload has bytes, and each round takes two. The
-- loop of relayFromBackend has one more round than the stream has bytes, and each takes five.
-- issue draws from a finite list.
--
-- Not modelled: timeouts, beyond the failures that they cause; logging, gauges and histograms;
-- pflag, the manager and the probes' HTTP server, which are libraries; generated copies and the
-- registration of types.
pub mod Common
pub mod Wire
pub mod Api
pub mod Config
pub mod Registry
pub mod Proxy
pub mod Controller
pub mod Health
pub mod Gateway
pub mod Wiring
pub mod System
mod Tests
