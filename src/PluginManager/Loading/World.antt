-- ===== src/PluginManager/Loading/World.antt =====
-- pluginmanager/pluginmanager.go, what the plugin manager has made and must give back: instances of
-- plugins, training goroutines, NATS handlers and the callback of the metrics. Each gets a number of
-- its own when it is made, and what is done with them stands in a log, the latest first.
use mod_sec_intl_wace_lib.Base.{
  Bool, Error, List, Map, Option, Result, String, external, guard, none, some, suc, ℕ, ◌>>=◌, ◌>>◌,
  ◌∷◌,
}
use mod_sec_intl_wace_lib.Training.Status.{PluginKind}
use mod_sec_intl_wace_lib.PluginManager.Process.{Handle}

-- The two handlers of an async or remote model plugin: that of its inputs, which calls the instance,
-- and that of its results.
pub data Role : Type 0 where
  inputs results : Role

-- A handler carries the instance of its plugin.
pub data Resource : Type 0 where
  instance_of : Handle → Resource
  training_of : ℕ → Resource
  handler_of : Role → Handle → ℕ → Resource
  callback_of : ℕ → Resource

-- `acquired` is a constructor, a goroutine or a subscription that starts; `released` is `Clean`, a
-- cancel, a `Stop` or `Unregister`; `reloaded` is a call of the plugin's `Reload`.
pub data Effect : Type 0 where
  acquired released : Resource → Effect
  reloaded : Handle → Effect

pub record World : Type 0 where
  pub next : ℕ
  pub log : List Effect

unfoldable pub emit : Effect → World → World
emit e w = record w { log = e ∷ w.log }

-- A new resource under the next number.
unfoldable pub make : (ℕ → Resource) → World → World × ℕ
make r w = (record { next = suc w.next; log = acquired (r w.next) ∷ w.log }, w.next)

unfoldable pub give_back : Resource → World → World
unfolding emit
give_back r w = emit (released r) w

-- A resource that may be missing.
unfoldable pub give_back? : (ℕ → Resource) → Option ℕ → World → World
give_back? r none w = w
give_back? r (some n) w = give_back (r n) w

-- `startTraining`: a goroutine of handleTraining.
unfoldable pub start_training : World → World × ℕ
start_training w = make training_of w

-- What the libraries and the plugins answer while the plugins are loaded once; the identifier of the
-- plugin is always among the arguments, so that no two calls need agree.
pub record Env : Type 0 where
  pub open_file : PluginKind → String → String → Result ℕ
  pub find_constructor : PluginKind → String → ℕ → Result ℕ
  pub is_constructor : PluginKind → String → ℕ → Bool
  pub construct : PluginKind → String → ℕ → Map String → Result Bool
  pub reload : PluginKind → String → Handle → Map String → Option Error
  pub connect : String → String → Result (Unit {0})
  pub queue_subscribe : String → ℕ → Result (Unit {0})
  pub flush_inputs : String → Result (Unit {0})
  pub subscribe_results : String → Result (Unit {0})
  pub flush_results : String → Result (Unit {0})
  pub make_gauge : Result (Unit {0})
  pub register_callback : Result (Unit {0})
  pub connect_manager : String → Result (Unit {0})

-- From `plugin.Open` to the test for a nil plugin: whether there is a new instance.
unfoldable pub open_plugin : Env → PluginKind → String → String → Map String → Result (Unit {0})
open_plugin env kind id path params = do
  file ← env.open_file kind id path
  f ← env.find_constructor kind id file
  guard (env.is_constructor kind id f) (external "invalid init function type")
  made ← env.construct kind id f params
  guard made (external "init function returned a nil plugin")
