-- ===== src/Lib.antt =====
-- Pingling: the host side of an extension runtime for VPN and proxy hosts.
--
-- Extensions declare in a manifest which methods and which phases of which slots they implement.
-- A registry indexes the manifests and refuses conflicting ones, and the runtime runs the plugins
-- of a slot, phase by phase, under the policy of each binding.
--
-- Which file models which part (paths from the repository's root):
--
-- - Contract: crates/plugin_runtime/host-contract. `Failure`, `Token` and `Slot` are `HostFailure`,
--   the validators and the slot types of src/lib.rs; `Manifest` is `PluginManifest`, `Registry` is
--   `PluginRegistry`. `Wit`, `Package` and `Merged` are src/contract.rs. A method `validate` is
--   `validate_…`, a constructor `new` is `new_…`. The proofs about the registry stand in the modules
--   below it. `Payloads` is the config pipeline of src/payloads.rs.
-- - Runtime: crates/plugin_runtime/host-runtime/src/lib.rs. `Plugin` is `run_plugin_phase` and
--   `apply_outcome`, `Loaded` is `LoadedPluginRegistry`, `Single` holds the functions for one plugin.
-- - Domain: crates/domain. `Error` is src/errors.rs, `State` and `Outbound` are src/types.rs,
--   `PluginSlot` is src/traits/plugin_slot.rs; `Pipeline` is src/pipeline.rs, where
--   `hook_runner` is `HookRunner::handle` in its phases, `wrap_cursor` is `WrapCursor::handle`, and
--   `Calls` and `Course` note the calls of the hooks.
-- - Config: crates/config/pipeline. `Strategy` is src/strategy.rs, `Attempt` holds the types of
--   src/attempt.rs and src/error.rs, `Processors` is src/pipeline.rs, `Classify` is `classify_error`.
-- - Core: crates/core. `Adapter` is src/adapter_protocol.rs, `Registry` is src/core_registry.rs, and
--   `Commands` any sequence of what a host
--   does to it. The cores are values of a type, and the file system is the parameter `FileSystem`.
-- - Mocks: crates/mocks. `Core` is core-mock/src/lib.rs, with the states and events of
--   crates/domain/src/types.rs in Domain's `State`; `Paths` is about the states it reports.
-- - Process: crates/cores/core-process/src/lib.rs, and the preset of crates/cores/core-singbox/src/lib.rs.
--   `Spec` is what it runs, `Process` itself its calls and the rounds of its reaper, over the parameter
--   `Processes` (spawning, killing, waiting, and the file system). `Status` is about calls one after the
--   other; `Threads` lets the caller and the reapers take turns between their locks, as a step relation.
-- - Storage: crates/shared/storage. `Memory` is src/memory.rs and its `View` the function it refines;
--   `JsonStore` is src/json_store.rs, over a disk whose actions may each fail.
-- - Proxy: crates/shared/proxy-dto. `Proxy` itself holds the outbounds of src/lib.rs; of src/project.rs,
--   `SingBox`, `Stream` and `Xray` are the two projections, and `Endpoint`, `Transport` and `Security`
--   say what they agree on.
-- - ClashApi: crates/shared/clash-api/src/lib.rs, over the network and the JSON library as a parameter; `Stream`
--   is its websocket, where `recv` has fuel for each message it reads.
-- - Netwatch: crates/shared/netwatch, from an update of the operating system to the inboxes of the subscribers.
-- - Loader: crates/shared/config, the configuration of a host from its files and environment.
-- - Ipc: crates/extension_slots/ipc. `Protocol` is src/protocol.rs, `Broadcaster` is
--   src/broadcaster.rs, whose calls are split where they release a lock; `SlotObserver` is
--   src/slot_observer.rs, which publishes what a slot run is observed to do; `Discovery` is
--   src/discovery.rs, over a `Machine` with a registry directory, with its beacon.
-- - PrimitiveHost: crates/extension_slots_service/primitive-host/src/main.rs, its arguments and commands over
--   the mock core and the process core.
-- - Prelude: what is used of Rust's library. A `str` is a native text, compared by code points and
--   measured in bytes; `BTreeMap` is a list in the order of its keys; `sort_by` is a stable
--   insertion sort; `Result` has `?` as its bind; an `i32` is only compared and parsed, so that it is an integer.
-- - Examples: runs at concrete inputs.
--
-- How state and effects are modelled: a method with `&mut self` returns the new record. A plugin may
-- change a world that is passed along, since the trait's methods take `&self` and hide their
-- state; so may hooks and handlers, whose `&mut` arguments come back with their results. The
-- observer is the list of what it was told: it returns nothing to the code. The types of
-- serde_json are parameters: `Json` has the constructors that `json!` uses, `Serde` the
-- conversions at the payload type, with the texts of their errors, `JsonValue` adds members and
-- assignment for the projections. A JSON value is kept as the
-- `Value` of that parameter. All loops run over lists, but that of
-- `ClashApi.Stream.recv`, which waits for a message and runs on fuel.
--
-- Not modelled: the payload types of the slots, `HostInvocation` and `HostOutcome` (plain data),
-- `new_invocation_id` (time and a counter), serialisation and the YAML forms of outbounds, the
-- paths and logging of the slot IPC, and the crates other than those above.
pub mod ClashApi
pub mod Config
pub mod Contract
pub mod Core
pub mod Domain
pub mod Examples
pub mod Ipc
pub mod Loader
pub mod Mocks
pub mod Netwatch
pub mod Prelude
pub mod PrimitiveHost
pub mod Process
pub mod Proxy
pub mod Runtime
pub mod Storage
