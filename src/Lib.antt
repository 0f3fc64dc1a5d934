-- ===== src/Lib.antt =====
-- HomePi Monitor: a node daemon collects readings from providers and serves them to displays, and an
-- administrator sends commands to a display through the node. This library models the parts of the
-- program that decide: the node's current readings, its queue of commands, the display's handling of
-- commands, the router of its pages, the retry policy, the wire protocol that joins them, and the node's
-- configuration: its checks, the drafts that an operator edits, and the transaction that applies one;
-- and the deployment of a display's configuration over SSH.
--
-- A collector's batch goes through the scheduler into the current state, whose snapshot is validated
-- and goes to the display. A control request becomes an entry of the command bus, whose `Pending`
-- feeds the stream of the device; the display's controller validates the command, records it in its
-- ledger, acts on the router, and sends results, which the bus records.
--
-- Files:
--   Protocol: internal/protocol. Enums, Snapshot, Ids and Validate are enums.go, snapshot.go, homelab.go
--     and validate.go; Source is its source binding; Status is status.go; Params and Command are
--     remote.go. An error of validation is the code or the field that it names.
--   Decimal: internal/decimal/decimal.go. Text has `Parse` and `String`.
--   CommandBus: internal/commandbus/bus.go. `Bus` has the state, the state file and the subscribers;
--     `publish`, `pending`, `record_result`, `get`, `subscribe` and `open_bus` are its methods; `step`
--     is any call. Entries holds the passes over the entries (`expireLocked`, `trimLocked`,
--     `dropOldestNormalLocked`, `redactParams`), Open the start; the other children are proofs.
--   RemoteControl: internal/remotecontrol. Store is store.go, Controller is controller.go with `handle`,
--     `snapshot_applied` and `notice_at`; an Event is any call.
--   State: internal/state/current.go. Current has the data, Metrics `ApplyMetrics` and
--     `ApplyConnectorError`, HomeLab `ApplyConnectorHomeLab`, Snapshot `Snapshot`.
--   Ui: internal/ui/pages.go. Pages has the pages and `ParseRotationConfig`, Router the router.
--   Scheduler: internal/scheduler. Policy is policy.go, Task the rounds of `runTask`.
--   Common: what the language and its library give: strings, maps, instants, numbers.
--   Config: internal/config. The parent is config.go, Validate with Providers is
--     validate.go.
--   Files: how a file is replaced in internal/config, internal/configtx and internal/deviceacl.
--   ProviderMeta: internal/providermeta/providermeta.go.
--   ConfigTx: internal/configtx. Draft with Edit, Probe and Fingerprint, Diff and Refs are draft.go, Overlay
--     is overlay.go, Service is configtx.go, Keyring and Apply with its children Steps, Undo and Run are apply.go;
--     Session is any work on a draft; the other children are proofs.
--   DeviceAcl: internal/deviceacl/acl.go.
--   DisplayConfig: internal/displayconfig/environment.go, without `Parse`.
--   DisplayDeploy: internal/displaydeploy/deployer.go. The parent has the manager's state and the current
--     profile, Probe the commands over SSH and the wait, Calls the methods; the rest are proofs.
--
-- A method that locks a mutex is one step, and an interleaving is a sequence of steps. Values of Go that
-- are copied deeply are values here. An error path is a value of `Result` or `Option`. An instant is a
-- number of nanoseconds since the zero time, a call reads the clock once, and a duration keeps the ends
-- of int64 where the code can reach them; a uint64 counter wraps around. What the operating system
-- answers (the clock, whether a file was written, the random id, the backlight, the float64 jitter) is
-- an argument of the step.
--
-- A loop without an evident bound is the rotation's: it runs on fuel of the elapsed nanoseconds
-- plus one, which is enough for every well-formed router. A Go map is an association list in the order
-- of insertion; where the code ranges over a map, that order decides only the name in an error and,
-- in `ApplyConnectorError`, which metrics are marked before an error.
--
-- The wait for a healthy display runs on fuel of 26 rounds: it gives up 25 seconds after its start and
-- sleeps for a second in each round. What SSH gives is a function of the commands that ran before, so
-- that the scripts are not looked into.
--
-- A configuration is applied in steps that each fail or not; which of the calls of the file system, the
-- secret store and the service manager fail is an argument (`Outcomes`), and so are the text of
-- encoding/json, sha256, and what net, net/url and time parse. Where `Apply` ranges over the candidates,
-- the theorems hold for every order of them.
--
-- Not modelled: JSON and YAML encoding, files below the outcomes of their calls, network, TLS, the
-- backends of the keyrings, the web administration, installation, the connectors,
-- drawing, and the log.
pub mod Common
pub mod Protocol
pub mod Decimal
pub mod Files
pub mod Config
pub mod ProviderMeta
pub mod ConfigTx
pub mod DeviceAcl
pub mod DisplayConfig
pub mod DisplayDeploy
pub mod CommandBus
pub mod Ui
pub mod RemoteControl
pub mod State
pub mod Scheduler
