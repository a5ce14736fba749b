-- ===== src/Lib.antt =====
-- RigStack: the dashboard (frontend/src) of the private cloud, its controller (controller/internal),
-- and the agent of its nodes (agent/internal), from the requests of the dashboard to the commands that
-- the nodes carry out, and the reports that come back.
--
-- The dashboard is a React application. `App` shows nothing but `HealthGate` until the controller
-- answers, then a page below `Layout` and `Sidebar`. A page keeps its state in hooks, calls the
-- controller through `api` of frontend/src/api/client.ts, and goes on when the promise is settled.
--
-- Prelude        names of the libraries passed on; tests, list lemmas and JavaScript's text functions
-- Runtime        pages as components: a state, events that the rendered elements can cause, and the
--                continuations that wait for a reply; a run is a sequence of steps in any order, and
--                `Reach` holds of the worlds that the mounted page can come to
-- Client         frontend/src/api/client.ts: Http has `req`, Types the answers, Endpoints the calls
--                of `api`, Format has `fmtBytes` and `fmtRam`, Laws their theorems
-- HealthGate     frontend/src/components/HealthGate.tsx
-- ViewMode       frontend/src/hooks/useViewMode.ts and frontend/src/components/ViewToggle.tsx
-- StatusBadge    frontend/src/components/StatusBadge.tsx
-- Instances      frontend/src/pages/real/Instances.tsx: `load`, `handle_start`, `handle_stop`,
--                `confirm`, `handle_create` are the handlers up to their first `await`, `resume` has
--                the rest; Instances/Page.antt has the events that the elements can cause, and
--                Instances/View.antt what is rendered
-- Network        frontend/src/pages/real/Network.tsx, in the same way
-- Images         frontend/src/pages/real/Images.tsx, in the same way
-- Nodes          frontend/src/pages/real/Nodes.tsx, in the same way
-- Dashboard      frontend/src/pages/real/Dashboard.tsx, in the same way
-- InstanceDetail frontend/src/pages/real/InstanceDetail.tsx: `effect` and `runs` of its state number
--                the runs of the metrics effect, so that an answer knows whether its run is
--                cancelled; InstanceDetail/Credential.antt has `CredField`, and
--                InstanceDetail/Console.antt the terminal and the socket of the console tab
-- Navigation     frontend/src/App.tsx, components/Layout.tsx, Sidebar.tsx and ComingSoon.tsx
-- Controller     controller/internal: Router has api/router.go; Images and Instances the catalog of
--                service/image.go and how the body of a creation is read and checked; Api the handlers
--                of api/handler, over the services;
--                Tables and Store the rows and the statements of store/postgres, with the foreign
--                keys of controller/migrations; Dispatcher the queues of dispatcher/dispatcher.go;
--                Scheduler `PickNode` of scheduler/scheduler.go; Address `allocateIP` and
--                `bridgeName`; Service the services of VPCs, instances, images and nodes, each a
--                function from the database and the queues to its result and the new ones; Heartbeat
--                grpcserver/server.go, which drains the queues; Runs
--                any sequence of calls of the services and of the nodes
-- Agent          agent/internal: Host has what the agent asks of its node, and how its functions call
--                each other; Commands the payloads of executor/commands.go; Network has network/*.go;
--                Domain and Libvirt have libvirt/vm.go and libvirt/manager.go; Storage has
--                storage/local.go; Executor the commands of executor/executor.go. Below Executor,
--                Settling, Stops and Deleting follow a command from the controller to the database.
--                Reconcile and Metrics have what agent/cmd/main.go reports at the start and in each
--                heartbeat
-- Demo           frontend/src/pages/*.tsx, the pages of the live demo, with frontend/src/types and
--                frontend/src/data/mock.ts: Instances keeps a state and is a component like the pages
--                above; Network, Buckets, Lists, Images and Dashboard say what the others show
-- Tests          runs of the pages, and each theorem at concrete inputs
--
-- The pages and the controller meet in two records: `Request`, with the JSON value of its body, and
-- `Response`. A number in a JSON value is its text. Numbers are natural numbers, which those of the
-- models are in the code; `fmtBytes` and `fmtRam` are exact below 2^53. `decimal` runs on fuel that
-- is one more than its number, and so above the number of its digits.
--
-- Parameters stand for what the browser does: the tables of `toLowerCase` and `toLocaleString`, the
-- format of dates, `toFixed` on a fraction, the host, whether there is a clipboard, and the message of
-- the error for a property of null. The environment chooses every reply, what `Math.random` draws and
-- the order of the continuations. For the controller they stand for the clock, `net.ParseCIDR`, the
-- columns of PostgreSQL for addresses, its errors, the ids that it gives and the passwords that are
-- drawn (`Env`, `fresh`, `password`). The loop of the heartbeat runs on the list of what the stream
-- gives it, and needs no fuel. `Address` computes the last byte modulo 256, as Go's `byte` does; `min_ram`
-- wraps at 2^64; the columns of type INT hold what is below 2^31. Of the statements of a creation, the
-- one that fails is given by `trouble`. The body of a creation is read with its keys in any case, and
-- with numbers without a sign: the dashboard sends no other.
--
-- A function of the agent goes from the acts so far to its outcome and the acts that it leads to; the
-- replies of the tools, of libvirt and of the files are those of a `Host`, which may depend on all acts
-- before. `StopVM` waits at most 30 seconds in steps of two, so that 16 rounds are enough for its loop.
--
-- Not modelled: styles, icons and the widths of bars; the double run of effects in React's strict
-- mode; the unmounting of the pages, after which a continuation has nothing to change; a change of
-- the id of a mounted detail page; lost
-- connections of the controller to its database, but for those of a creation, and calls of the services that interleave between
-- two statements; the lists of nodes and images, and the proxies of the console and of the metrics;
-- the connection and the console of libvirt on a node, the metrics of one machine, the registration of
-- the agent and its side of the stream, and commands of one node that interleave; generated code.
mod Prelude
mod Tests
pub mod Runtime
pub mod Client
pub mod StatusBadge
pub mod HealthGate
pub mod ViewMode
pub mod Navigation
pub mod Network
pub mod Nodes
pub mod Images
pub mod Instances
pub mod InstanceDetail
pub mod Controller
pub mod Agent
pub mod Dashboard
pub mod Demo
