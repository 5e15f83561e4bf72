-- ===== src/Lib.antt =====
-- dragonfly-wasm: a manager of WebAssembly plugins for Dragonfly servers, written in Go. This
-- library models the logic of the program, and has theorems about what makes it correct.
--
-- The manager (internal/manager/manager.go) reads the manifests of the plugins (pkg/plugin), leaves
-- out those that the configuration (pkg/config) disables, sorts the others by their dependencies,
-- creates an instance of each within the effective resource limits, and subscribes it to its events
-- at the dispatcher (pkg/events). The dispatcher runs the handlers of an event by their priorities
-- and sums up their answers; the handlers count calls, events and errors in the plugin's metrics.
-- The players' handlers (internal/handler) turn what players do into events for the dispatcher, and
-- cancel what a plugin cancels. Plugins act on the server by host functions, which reach it through
-- the adapter (internal/adapter). The runtime (internal/runtime) has other kinds of instances, with a
-- table and a pool of them.
--
-- Prelude          Go maps as association lists, integers, int and uint64 arithmetic with its
--                  wrap-around, sort.Strings and slices.SortFunc.
-- Plugin           pkg/plugin: Version (`Compare`), Manifest (`Validate`, `SubscribedTo`,
--                  `GetEventPriority`), Regex (the matcher of plugin IDs, by derivatives), State
--                  (`State.String`) and Metrics (the `Record` methods).
-- Config           pkg/config/config.go: records, defaults, `IsPluginEnabled`, `GetEffectiveLimits`,
--                  and the page limit of internal/manager/manager.go.
-- Events           pkg/events/dispatcher.go: the operations of the dispatcher. A handler is a value
--                  of a type `H`; what running it does is the parameter `invoke` on a state `W`.
-- Manager          internal/manager/manager.go. DependencySort is `sortByDependencies`: maps
--                  `manifestMap`, `inDegree` and `dependents` as in the code, and its loops as
--                  recursive functions. Wasm is an interface for what the manager uses of the extism
--                  library, the file system and the clock. Lifecycle has the manager's state and
--                  `loadPlugin`; its children Handling (`createEventHandler`) and Operations
--                  (`EnablePlugin`, `DisablePlugin`, `UnloadPlugin`, `EnableAll`, `DisableAll`,
--                  `Close` and the reads). A `*LoadedPlugin` is an address of a heap, because the
--                  handlers in the dispatcher share the plugins with the map.
--                  Storage is internal/manager/storage.go, with the maps of `MemoryStorage` and
--                  `FileStorage` and an interface for files and JSON.
--                  HostFunctions is internal/manager/hostfuncs.go: Calls has what the functions share
--                  (a state and a step that may return early), Players and Blocks the functions, one
--                  for each `host...` method, over Server, the interfaces `ServerAPI`, `PlayerAPI` and
--                  `WorldAPI`; Commands and Replies say what they are to do. Loader is
--                  internal/manager/loader.go, its child Resolution `ResolveDependencies`; LoadAll is
--                  `LoadAll` and `loadManifest`.
-- Host             pkg/host: Functions has one function for each `create...Function` method of a
--                  `FunctionProvider`, Provider the list of them, and Serialization the requests.
-- Runtime          Pool is internal/runtime/pool.go: a function for each of the atomic parts of
--                  `Acquire`, `AcquireWait`, `Release` and `Close`, one of them for a round of the
--                  loop in which `Close` drains the channel, and a step relation for the
--                  interleavings of goroutines. Instance is `PluginInstance` of
--                  internal/runtime/runtime.go with its metrics and its states, those of
--                  pkg/types/types.go; Table is `Runtime` of the same file, whose instances are
--                  addresses of a heap, as the pointers that `LoadPlugin` gives out are kept.
--                  InfoInstance is `Instance` of internal/runtime/instance.go. extism is the
--                  interface of Manager/Wasm.
-- Handler          internal/handler/handler.go: Payloads has the data of the events (Json, Game are what
--                  it is made of), Dispatch `dispatchEvent` and a function for each `Handle...` method.
-- Adapter          internal/adapter/adapter.go, as the `ServerAPI` of Manager/Server over an interface
--                  for the Dragonfly server.
-- The modules with Examples in their names hold runs of the functions at concrete inputs.
--
-- Numbers: an `int` or `int64` is an integer of Prelude.Int, `wrap_int` brings a result back into 64
-- bits; a `uint64` is a natural number, with `% 2^64` where it is increased. Lengths and the degrees
-- of the dependency sort are exact: no list is long enough to make them wrap. Fuel: the loop over the
-- queue of the dependency sort has one round for each manifest, since each takes another ID; the
-- depth-first search of the loader may be one call deeper than there are plugins, since the plugins
-- that are open differ and a call for an open one returns at once.
-- float32 and float64 are type parameters.
-- slices.SortFunc is a parameter with what its documentation promises (a permutation, sorted
-- where the comparison is a strict weak order); insertion sort shows that the promise can be kept.
-- sort.Strings is insertion sort, since equal texts cannot be told apart.
--
-- Locks: the operations of a component take its lock, so the model runs them one
-- after the other, except in Runtime.Pool, where the lock covers only a part of each operation.
-- A panic of `RecordCall`, which only the 2^64th call of a plugin could bring, is `none` in Plugin,
-- and leaves the metrics as they were in Manager and Runtime.
-- Not modelled: files, TOML and JSON, the memory of the instances, the extism runtime and the
-- Dragonfly server, which are interfaces; logging, but for the lines of the host functions; and the
-- texts of errors (pkg/types/errors.go).
mod Prelude
pub mod Plugin
pub mod Config
pub mod Events
pub mod Manager
pub mod Runtime
pub mod Host
pub mod Handler
pub mod Adapter
