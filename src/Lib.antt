-- ===== src/Lib.antt =====
-- anybot is a framework for chat bots in Go. This library models its runtime and the parts around it, and
-- proves what makes them correct.
--
-- The parts, and how they work together. An adapter (adapters/onebot11) turns what the chat service sends
-- into events and gives each to the runtime (core). App.dispatch lets the observers see the event, then
-- tries the routes of the router's snapshot in turn: the rules of a route decide whether it matches, the
-- middleware of its groups stand around its handler, and the handler's error decides whether the next
-- route is tried. Handlers keep their data in a store, through sessions. A plugin (sdk) has sessions, typed
-- state and dialogues under its own id; the host (app/host) keeps the plugins of a bot in a lock file,
-- generates the program that builds them in, and makes their registry from the lock.
--
-- Files. Paths are those of the repository.
--   Base: Go's strings as lists of code points with the functions of package strings that the code
--     calls, maps as association lists, Boolean tests, priorities as integers over the native ℕ.
--   Core/Errors, Core/Message, Core/Event, Core/Match, Core/Context: core/errors.go,
--     core/message/chain.go, core/event.go, the Match of core/route.go with mergeMatch, core/context.go.
--   Core/Runtime: a rule, a handler and a middleware are functions of the context and of a world, which
--     holds all that a handler can change, the variables of the middleware included. A handler returns
--     an error or panics, and both are values.
--   Core/Rules and its children: core/rules.go. Core/Router and its children: core/route.go, where a route
--     is named by its order of registration and a group by its place below its parent.
--   Core/Middleware and its children: core/middleware.go and core/security.go. Core/Observer:
--     core/observer.go, with Core/Observer/Bound on its slots: the channel as the number of values in it,
--     and beside it the goroutines, each in a phase of runObserver. Core/Dispatch and its children: dispatch
--     and handleError of core/app.go.
--   Core/Store and its children: core/store.go, as operations of a MemoryStore at given times, with the
--     map that forgets nothing as their specification. Core/FileStore: core/file_store.go, where the
--     file's content is part of the state and the outcome of a write an argument.
--   Core/KeyedLocks and its children: core/scheduler.go, as steps of callers, with what each step keeps.
--   Core/Adapter and its child: core/state.go. Core/Lifecycle and its child: core/lifecycle.go, and Run of
--     core/app.go without workers. Core/Task and its child: core/task.go, the ends of the tasks as a list.
--   Onebot/Message, Onebot/Cq and its children: adapters/onebot11/message.go. Onebot/Event and its child:
--     Normalize of adapters/onebot11/event.go. Onebot/Client: the calls of client.go with response.go.
--     Onebot/Socket and its child: socket.go as steps of calls, frames and connections in any order.
--   Sdk/Access and its child: sdk/access.go. Sdk/PluginId and its child: sdk/id.go.
--     Sdk/Sessions and its child: the sessions of sdk/context.go with scopedName. Sdk/State and its children:
--     sdk/state.go. Sdk/Registry: sdk/registry.go. Sdk/Dialogue and its children: sdk/dialogue.go, with
--     Turn for what happens on an event, Laws for what a step guarantees and Resume for the event behind
--     Begin.
--   Host/PluginLock and its children: the lock of app/host/plugin_lock.go, its checks and its changes.
--   Host/HostFiles and its children: app/host/plugin_lock_io.go, plugin_host_render.go and atomic.go, where a
--     disk says what each of the four files of a plugin host holds. Host/LockCommands and its children: the
--     commands AddPluginInstall, UpdatePluginInstall, RemovePluginInstall and EnsurePluginHostForce.
--   Host/LockRegistry and its child: RegistryForLock of app/host/builtins.go.
--   Host/Yaml and its child: the nodes of gopkg.in/yaml.v3 that app/host/config_update.go reads, as a tree
--     whose mappings hold pairs, with the functions that take one apart. Host/YamlPaths and its children:
--     setMappingPath and removeMappingPath. Host/YamlDefaults and its children: mergeMappingDefaults.
--     Host/ConfigEntry and its children: the operations on one plugin's entry. Host/ConfigFiles and its
--     child: the same on the plugin's file in a directory. Host/ConfigSync and its child: the sync of
--     the files with the plugins' defaults. Host/ConfigChanges and its child: the arguments of plugin config.
--     Host/YamlEnv and its child: internal/yamlenv/env.go. Sdk/ConfigPath: sdk/config.go.
--   Core/Tests, Core/StoreTests, Core/RunTests, Core/RuleTests, Core/LockTests, Onebot/Tests, Sdk/Tests,
--     Sdk/StateTests, Host/Tests, Host/RegistryTests, Host/ConfigTests: runs at concrete inputs.
--
-- Bounds and fuel. Only the parser of CQ codes runs on fuel, one unit for each character of its input, of
-- which a round takes at least five; all other loops are recursion on a list. Times, scores and limits
-- are natural numbers, with no bound where Go has int64, and the zero time is 0.
--
-- What is left out. Goroutines: the model's steps are the critical sections that the code's locks make,
-- and Get of a MemoryStore is cut where the code lets go of its lock. Handlers that register routes while
-- an event is dispatched, error handlers and rules that panic, and forward nodes that hold a chain are not
-- modelled. A nil map or slice is the empty one, but for a registry's. strings.ToLower, regular
-- expressions and the logger are parameters, and so are the JSON and YAML codecs, the executed templates of
-- the generated files, what golang.org/x/mod accepts, and what the operating system refuses: a file is
-- written whole or not at all.
-- The code changes YAML nodes through pointers; it reaches each node on one way only, so a changed tree
-- is a new tree, but for the document that a loader hands out beside its entry, where the model says
-- whether the two are one. An error drops the tree in hand, which the code does not save either.
-- An alias is a node with the node to which it points, as it was when the tree was read; anchors are not
-- kept, so what a codec makes of a tree whose anchors were lost is for the hypothesis on the codec.
-- The command line tool, the runtime and the wiring of plugins, the decoding of JSON and the network
-- itself are not modelled.
pub mod Base
pub mod Core
pub mod Host
pub mod Onebot
pub mod Sdk
