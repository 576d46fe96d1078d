-- ===== src/Lib.antt =====
-- caramelo's own logic, modelled from its Go source and verified.
--
-- A commander drives a fleet of machines; on a machine, caramelod keeps environments, hands them
-- port blocks, and pushes a table of routes to the edge, a reverse proxy that balances requests over
-- the replicas of a service and drains the replicas that leave.
--
-- Which file models what:
--
--   Config/Expand   internal/config/expand.go: references in the values of a configuration; Pieces proves
--   Edge            internal/edge/edge.go: routes, targets, their states and kinds
--   Edge/Broker     internal/edge/broker.go: the events and their subscribers; Gaps, Delivery and Bounds
--                   prove
--   Edge/Host       NormalizeHost, over the bytes of an ASCII host
--   Edge/Counts/... internal/edge/counts.go and control.go: what a pool counts and reports since a mark;
--                   Parts, Marks, Grown and Since prove.
--   Edge/Pool/...   internal/edge/pool.go and counts.go. State holds RoutePool and its parts (the Go
--                   struct targetState is Tracked), Install the installation of a route's targets,
--                   Requests begin, end, Mark and sweep, Pick the round robin. Invariant, Drains,
--                   RoundTrip and Pick/Rotation prove.
--   Edge/Routes     internal/edge/edge.go, Table: Route, Has, Put, Remove and Validate, whose error is
--                   a TableError. Lookup, Valid, Refines, Accepts and Kept prove.
--   Ports           internal/ports/ports.go: the allocator; FirstFit and Disjoint prove
--   Remote/Quote    internal/remote/quote.go: words quoted for a shell, and split; RoundTrip proves
--   Task            internal/task/file.go, report.go, status.go: items, blocks, results
--   Task/Decide     internal/task/engine.go, what one item comes to; Commands and Laws prove
--   Task/Tree       internal/task/engine.go, how entries and blocks are run; Stops proves
--   Env/Layout      internal/env/views.go: the ports of an environment's block; Inv, Apart and Blocks prove
--   Env/Replicas    internal/env/replicas.go: the replicas that are there, the free indexes; Free proves
--   Env/Rollout/... internal/env/rollout.go and replica.go: how a service's replicas are replaced. Start
--                   brings a replica up, Flip changes the pool and stops the old ones, Roll is
--                   rollService. Extends, Checks, Starts, Brought, Rows, FlipCalls, Flips,
--                   Drained and Phases prove.
--   Env/Health/...  internal/env/health_loop.go: what one round of the health loop does with a replica,
--                   and with the rows of its routes. Keys, Rounds, Rows and Recovery prove.
--   Env/Deploy/...  internal/env/deploy_watch.go and deploy_run.go: a deploy from its switch on. Ending is its
--                   promotion and its rollback, Watch the rounds of the watch, Switch the switch of the
--                   pools. Logs, Pushes, Stops, Stopped, Back, LetGo, Rounds, Told, Justified, Settled, Along,
--                   Loops, Failing, Known, SwitchRows, Published, Holding
--                   and Switched prove.
--   Fleet           internal/fleet/machine.go and placement.go: machines, what is asked, the gauge
--   Fleet/Token     internal/fleet/token.go: the join tokens
--   Fleet/Choose    internal/fleet/choose.go: the choice of a machine; Rank, Fit, Best and Pin prove
--   Fleet/Subnet/... internal/fleet/subnet.go: the subnets of the fleet's range; Range and Parse prove
--   Vault           internal/vault/vault.go: which names and values a secret may have
--   Vault/Dotenv/... internal/vault/envfile.go: secrets as lines, written and read. Texts, Pairs, Lines
--                   and RoundTrip prove.
--   Vault/Resolve/... internal/vault/store.go: the secrets an environment gets; the rows of the store
--                   and the cipher are given. Wins and Delivered prove.
--   Vpn/...         internal/vpn/addr.go: the addresses of peers and environments. Ranges, Scan and Free
--                   prove.
--   Tests           runs on concrete inputs, and each theorem at one of them
--
-- Conventions. A Go int is a natural number where the code keeps it at 0 or above; a time is the
-- number of nanoseconds since Go's zero time, and a duration a number of nanoseconds. A string is a
-- list of bytes; an error is a constructor that carries what its message prints. White space is
-- trimmed as of an ASCII text: strings.TrimSpace drops other Unicode white space too. A map is an
-- association list; where Go leaves the order of a map open the model uses the list's order. The
-- clock's reading, the store's rows and whether a port can be bound are arguments. A pool's mutex
-- makes each of its operations one step, so a history is a list of calls. A pointer into the pool's
-- targets is a read (find) and a write back (set_tracked).
--
-- The task engine acts on a Machine: what a script does to the world and answers, what a built-in
-- checks and applies. The items of a parallel block run in their order, one of the orders that Go's
-- goroutines allow; a block does not look at the stop flag between its items, as in the source. The
-- events, the durations and the wording of errors are left out.
--
-- A rollout and a deploy run against a plant, which answers each call of the container driver, the store or the
-- edge by a function of all that was asked before: a theorem for every plant holds for every behaviour
-- of these, and for every failure. In a deploy the plan of a release, the making of a service again,
-- its record and the wait for it are such calls too: that code is not modelled, so the containers that
-- making a service again removes are not counted among those a deploy stops. Container ids, the times of steps, events and the wording of
-- details are left out.
--
-- Bounds and fuel. The port scan has one round more than there are blocks, which Ports.FirstFit
-- shows to be enough; the search for free replica indexes has as many rounds as there are
-- replicas and indexes asked for, which Env.Replicas.Free shows to be enough; the search for a
-- free address has a round for each address of its range; the scan for
-- references has a round for each byte, which Config.Expand.Pieces shows to be enough; every
-- other loop is structural.
--
-- Not modelled: sockets, Docker, ssh, git, TLS and WireGuard, the SQL of the store, the command line
-- and its rendering. These are input and output, or calls of libraries. The router of the edge, the
-- readers of the configuration and of the task files, the firewall's report, the announcements between
-- machines and the making of an environment are left out for their size: most of that code is calls of
-- the above in a row, or one message for each mistake of a file.
pub mod Common
pub mod Config
pub mod Edge
pub mod Env
pub mod Fleet
pub mod Ports
pub mod Remote
pub mod Task
pub mod Tests
pub mod Vault
pub mod Vpn
