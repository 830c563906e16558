-- ===== src/Lib.antt =====
-- The smart-home gateway agent (smart-home-agent/), a Go program that bridges a Home Assistant
-- instance to a cloud over MQTT, modelled as pure functions on its state.
--
-- The parts, and how they meet. Home Assistant's state changes become uplink messages, which are
-- published when the broker is connected and held in a bounded buffer when it is not. The cloud's
-- commands are checked for duplicates and for their age, and become service calls; its desired
-- states are translated to service calls and their versions recorded; its config says whether the
-- gateway is claimed and which device is which entity. Pairing commands drive one session at a time
-- through a local Zigbee backend. An update command brings add-ons, the OS, the Core and the agent
-- itself to the latest through the Supervisor, across the restarts that this causes.
--
--   Json                   decoded JSON values
--   Buffer                 smart-home-agent/internal/agent/buffer.go
--   Dedupe                 smart-home-agent/internal/agent/dedupe.go
--   Versions               smart-home-agent/internal/agent/versions.go
--   EntityMap              smart-home-agent/internal/entitymap/entitymap.go
--   Translate              smart-home-agent/internal/agent/translate.go
--   Contract, Topics       smart-home-agent/internal/contract/contract.go
--   Pairing                smart-home-agent/internal/pairing/pairing.go
--   Pairing.Z2m            smart-home-agent/internal/pairing/z2m.go
--   Agent                  the state of smart-home-agent/internal/agent/agent.go; its children hold
--                          the handlers: Uplink, Action, Command, PairingCommand and Shadow
--                          (agent.go), Config (config_state.go and agent.go), Inventory
--                          (config_state.go, update.go, webui.go)
--   Agent.Invariant, Agent.Delivery, Agent.Convergence, Agent.Claiming    the proofs about the
--                          handlers
--   Fleet                  smart-home-agent/fleet/fleet.go
--   Supervisor             smart-home-agent/internal/supervisor/supervisor.go
--   Update, Update.Phases  smart-home-agent/internal/agent/update.go
--   Onboard                smart-home-agent/internal/onboard/engine.go
--   Provision, its Retry   smart-home-agent/internal/provision/provision.go
--   Recovery               smart-home-agent/internal/agent/claim.go, with the recovery of credentials
--                          (agent.go) and the panel's actions on them (webui.go); its Connect the
--                          connect loop (agent.go)
--   Steps                  smart-home-agent/internal/onboard/device.go and devaddon.go, and its
--                          children steps.go: Options, Repositories, Account, Addons, Radio, Agent,
--                          Build; Awaiting and Outcome are the proofs
--   Configuration          smart-home-agent/internal/config/config.go
--   HomeAssistant          smart-home-agent/internal/ha/ha.go: Socket its websocket sessions,
--                          Registry the inventory, Rest the REST calls
--   Backup                 smart-home-agent/internal/backup/backup.go, and the run of a backup
--                          (agent.go)
--   Gateway                smart-home-agent/internal/onboard/client.go; its Waiting also the sleep of
--                          steps.go
--   Tests                  runs at concrete inputs, and instances of the theorems
--
-- A Go function keeps its name in snake case. A handler or a task runs to its end as one step, and a
-- list of inputs is an order of them (Agent.Invariant.Run); a goroutine that a handler
-- starts is an effect of the handler, and the task that it runs is an input of its own. What the
-- outside answers (broker, Home Assistant, clock, disk, JSON library) is the record `World`, whose
-- fields may depend on all that happened before; the Supervisor's transport is the record `Api`. A
-- slice index out of range is `none` in the two bounded structures and the flag `panicked` in the
-- agent. Times are integers in nanoseconds; a duration wraps at 64 bits as in Go. Loops
-- run over lists; the retry of provisioning runs on fuel, one round each, and returns once an attempt
-- is accepted within it; the connect loop runs on fuel too, and returns within the rounds that its
-- context's deadline allows, where a wait that the context cuts short counts in full; the wait for the agent to provision takes a round for each nanosecond
-- to wait and two more, and every round but the last sleeps three seconds. The limits of 512 held messages and 1024 remembered command
-- ids are the program's own.
--
-- Not modelled: the MQTT clients (mqtt, localmqtt) and the Supervisor's HTTP transport
-- (supervisor/http.go), which wrap libraries; the reconnecting loops of the Home Assistant streams and
-- the select loop of the agent; the pages of the web panel; and the onboarding command line
-- (cmd/smart-onboard) with its network discovery.
pub mod Prelude
pub mod Json
pub mod Buffer
pub mod Dedupe
pub mod Versions
pub mod EntityMap
pub mod Translate
pub mod Contract
pub mod Pairing
pub mod Agent
pub mod Fleet
pub mod Supervisor
pub mod Update
pub mod Onboard
pub mod Provision
pub mod Recovery
pub mod Steps
pub mod Configuration
pub mod HomeAssistant
pub mod Backup
pub mod Gateway
pub mod Tests
