-- ===== src/Lib.antt =====
-- DroidOS: an operating layer for droids, a brain process over an independent safety controller.
--
-- The parts, and the files that model them (paths from the repository's root):
-- - Core.States, Core.Models: `src/droidos/core/states.py` and the levels of `models.py`. The machine
--   with its table of transitions and its history; `force` enters any state.
-- - Backends.SafetyController: `src/droidos/backends/safety_controller.py`, the device that holds the
--   motor power. `Controller` is its state, one function per method; the clock is an argument.
-- - Services.SafetyGateway: `src/droidos/services/safety_gateway.py`, which every request to move
--   passes. `Gateway` holds the controller, the token, the backend's power switch, the latch file, the
--   audited events and the state machine.
-- - Services.Lifecycle: `src/droidos/services/lifecycle.py`, the states of a managed service. Hooks are
--   values: they return a truth value or raise, and what a hook does to other services is left out.
-- - Services.Supervisor: `src/droidos/services/supervisor.py`. Readiness holds `assess_readiness` and
--   `_settle`, Activation the start of the services with their requirements, Boot the boot sequence,
--   `refresh` and `request_shutdown`, Restart `restart_failed`.
-- - System, Body.Capabilities: what these parts read of `src/droidos/system.py`,
--   `src/droidos/body/loader.py` and `src/droidos/body/capabilities.py`.
-- - Body.Manifest, Body.Loader: `src/droidos/body/manifest.py` and the `BodyManager` of `loader.py`. A
--   file is what is read from it; what a selection that `set_active` writes reads as, and whether the
--   write raises, are arguments.
-- - Services.WorldModel, Services.Navigation: `src/droidos/services/world_model.py` and the
--   destinations of `navigation.py`.
-- - Services.Update: `src/droidos/services/update.py`, two slots of which one is active.
-- - Services.Diagnostics: `src/droidos/services/diagnostics.py`, the levels of all parts and their summary.
-- - Services.Memory: `src/droidos/services/memory.py`, what the droid remembers.
-- - Language.Auth, Language.Tools, Language.Broker: `src/droidos/language/auth.py`, `tools.py` and
--   `broker.py`. The broker calls the authorizer, the navigation and the supervisor's assessment, and
--   what it approves goes to the executive.
-- - Executive.BehaviourTree, Executive.Drive: `src/droidos/executive/behaviour_tree.py` and `_drive_to` of
--   `executive.py`, which requests and releases the permission at the gateway. The driving loop has the
--   source's bound of 3000 turns, and `run` its 10000 ticks; what each call of a
--   service gives in a turn, its answer or its exception, is an argument.
-- - Executive.Tasks, Executive.Droid, Executive.Handlers, Executive.Intents: `tasks.py` and the rest of
--   `executive.py`. `Droid` holds the supervisor with the runtime, the services' states and the
--   executive's fields; `World` is what backends, Python and other services answer while one intent
--   runs. Handlers has one function per handler, in Reports, Control, Motion and Records; Intents has
--   `run_intent`. Of a report, the name, the hottest motor and whether the language is degraded are
--   left out.
-- - Language.Offline: `src/droidos/language/offline_parser.py`, rule by rule.
-- - Language.Objects, Language.Providers: `src/droidos/language/providers.py`, the search for an object
--   in a model's answer, the providers and their chain.
-- - Language.Personality: `src/droidos/language/personality.py`.
-- - Language.Service: `src/droidos/language/service.py`. `process` asks the chain for an intent, the
--   broker for a decision, and has the executive run what is approved.
-- - Services.Voice: `src/droidos/services/voice.py`. `handle_utterance` looks for an emergency first,
--   which goes to the gateway directly, and hands everything else to the language service.
-- - Core.Events: `src/droidos/core/events.py`. A callback changes the state of its subscribers; one that
--   publishes again is not modelled. Core.Config: `Config` and `_deep_merge` of
--   `src/droidos/core/config.py`, without the file system's paths.
-- - Rocky.Policy, Rocky.Executor: `rocky/policy.py`, the judgement of an action on the host, and
--   `rocky/executor.py`, which runs it. The executor relies on its caller to have asked the policy.
-- - Gait.Policy: `src/droidos/gait/policy.py`. `load_for_body` validates what a policy file holds, `infer`
--   takes one control step; Python's floats are a record of operations with the order's laws.
-- - Util.MiniYaml: `src/droidos/util/miniyaml.py`, the reader and the writer of the YAML subset. Text
--   holds Python's string methods on lists of code points, Lines the comments and indents, Scalars
--   `_scalar` and `_split_flow`, Parser the blocks, Dumper the writer; Ends and RoundTrip hold proofs.
-- - Prelude: shared names and helpers, association lists for Python's `dict`, and the methods of `str`
--   that are parameters.
--
-- The arguments of an intent are pairs of texts: an answer of a model whose arguments are no object, or
-- hold other values, is left out. Times are whole numbers of a fixed unit, and each reading of the clock is an argument. Texts that the
-- source formats for people are values of data types where nothing depends on their letters.
-- `_activate_with_deps` recurses without a bound in the source; its model takes fuel, with a theorem
-- that fuel above the rank of a service is enough when the requirements have ranks.
-- The YAML parser recurses on fuel too, three units for each line and three more, and a scalar on one
-- unit for each character: a theorem shows that neither runs out. Python's limit on the depth of its
-- stack is left out.
--
-- Not modelled: floats (poses, velocities, the lidar), the session of a gait network, hardware and
-- ROS 2, the renderer of results, logging and the command line tools. The other modules take a file as
-- what it parses to, and PyYAML, which miniyaml.py prefers where it is installed, is a third-party
-- package. The servers of the language models, `json.loads`, `re` and the methods of `str` that
-- Prelude does not define are parameters.
mod Prelude
pub mod Core
pub mod Backends
pub mod Body
pub mod System
pub mod Services
pub mod Language
pub mod Rocky
pub mod Util
pub mod Gait
pub mod Executive
