-- ===== src/Lib.antt =====
-- WACE: the library by which a web application firewall asks plugins whether a transaction is an
-- attack. The host opens a transaction, has parts of it analysed by model plugins, asks decision
-- plugins for a verdict over the results of the models, and closes it.
--
-- The parts, each with the file or directory of this library:
--   Base         shared names: tests on native numbers and texts, lists, integers, Go maps as
--                association lists, errors as values.
--   ConfigStore  configstore/configstore.go: the plugin types (PluginType), the file and the stored
--                configuration (Defs), `checkConfig` (Check), `SetConfig` (SetConfig).
--   WaceApi      waceapi/waceapi.go: the data that host, core and plugins exchange.
--   Sanitize     sanitize.go: runes (Utf8), `foldEq` and the names of credential fields (Fold),
--                `sanitizeFields` (Fields), `sanitizeHeaders` and `sanitizeCredentials` (Headers).
--   Training     pluginmanager/training_plugin.go: the status of a collection (Status), its JSON and
--                its file (StatusFile), the goroutine `handleTraining` (Collect), and when which
--                status is due (Moments).
--   PluginManager  pluginmanager/pluginmanager.go and metrics.go: transactions, results and channels
--                (Tx), the asyncTx under concurrent calls (AsyncTx), `Process` and `ProcessTraining`
--                (Process), `CheckResult` (CheckResult), the messages of async and remote plugins
--                (Nats), the counts of the loaded plugins (Loaded); the operations on transactions
--                over any sequence, with a table that says what they mean (TxTable).
--   PluginManager/Loading  pluginmanager/pluginmanager.go and `registerMetrics` of metrics.go: what is
--                made and given back (World), `NatsHandler.Stop` (Stop), the NATS handlers of a
--                plugin (Handlers), `loadModelPlugins` (Models) and `loadDecisionPlugins`
--                (Decisions), `New` and `Reload` (Manager); how the log of the effects is read
--                (Ledger).
--   Core         wacecore.go, queue.go, metrics.go: `callPlugins` up to its calls (Dispatch), its
--                waiting loops with what they record, and the inputs for the queue (Wait), its sync
--                calls from their channel on, with the process that runs the remote plugins (Phase),
--                and what each of them comes to without channels and queues (Outcomes), the
--                host's entry points with the wait group of each transaction (Transactions), the
--                instruments (Metrics), `Init` and `Reload` (Lifecycle).
--   Build        magefiles/magefile.go: the builds of the test plugins, and the targets (Targets).
--   Tests        the theorems at concrete inputs.
-- The other modules of a directory hold the proofs: those that end in Laws, and Mask, Rounds, Counters,
-- AsyncTxLocked, AsyncTxRuns, LoopWrites, TxRefinement, DecisionsHeld, DecisionsRound, DecisionsFollow, Outcome,
-- Keyed, Configured, Connected, LifecycleInvariant and Stuck.
--
-- How they interact: `init` and `reload` of Core store a configuration by `set_config` and have
-- `new_manager` or `reload_manager` of PluginManager/Loading load the plugins. `SetConfig` fills
-- the configuration that all others read. `launch` of Core masks the payload by Sanitize and gives
-- each model its call; the call ends in `process` or `process_training` of PluginManager, or, over
-- the queue, in `handle_model_input` of another process and `handle_model_result` here. Each sends
-- a status on a channel of the transaction, over which the waiting loops of Core run.
-- `check_result` gives the results to the decision plugins.
--
-- How the code is rendered. Texts of the traffic are lists of bytes; identifiers, paths and other
-- texts are native strings. A Go `int` is an integer without bound; none of the code's sums comes
-- near 2 ^ 63. A float64 is its bits, a value of type `any` is a number that names it: both are
-- only passed on. A pointer is an index into a heap, or an Option where it may be nil. The order of
-- a Go map's iteration is that of the association list. An operation under a mutex or on a sync.Map
-- is one step; the two asyncTx operations have steps between which others run, and so have the
-- calls of the host and the calls of callPlugins that they start, where the host is supposed to
-- open no transaction that is open, and not to analyse one while it closes it. Goroutines that wait
-- are functions of the list of events that they meet, and they say whether they still wait. What
-- the plugin manager makes, an instance of a plugin, the goroutine of a training, a NATS handler or
-- the callback of the metrics, has a number of its own, and a log keeps what is made, called and
-- given back. In one load the answers of plugins and libraries are those of an `Env`, whose
-- functions for a plugin take its identifier; each load has an `Env` of its own, and one
-- configuration throughout. Loads exclude each other by `reloadMutex`. The loops that unload go
-- over the plugins that are loaded when they start. `NatsHandler.Stop` is one entry of the log, and
-- its own events stand in Stop; the cancel of a training is one entry too. A panic by a nil plugin
-- manager is an answer of its own. In Phase a sync call ends in one step, the calls end in any order,
-- and the channel is not emptied while they do, which is the least room that they can find. Code of
-- others is a parameter: whether a path exists, `strings.EqualFold`, the plugins, JSON and NATS, the file system
-- and the clock. Of the JSON of the messages only that is supposed that it keeps the identifier of the
-- transaction, so what arrives is what the decoder makes of it; an empty error text that arrives is a
-- success, as in the code.
--
-- Fuel: `sanitize_loop` has one more than the length of the text, and every round takes at least one
-- byte; `fold_search` has three, the length of the longest orbit of `unicode.SimpleFold` that meets
-- an ASCII letter.
--
-- Not modelled: the logger and the meter that a plugin is given, the plugins under testdata, the entry
-- point of mage, and all logging.
pub mod Base
pub mod ConfigStore
pub mod WaceApi
pub mod Sanitize
pub mod Training
pub mod PluginManager
pub mod Core
pub mod Build
pub mod Tests
