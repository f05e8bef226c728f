-- ===== src/PluginManager/Loading/ManagerLaws.antt =====
-- pluginmanager/pluginmanager.go, the ledger over New and Reload.
use mod_sec_intl_wace_lib.Base.{
  Bool, Distinct, Error, Option, Result-cases, String, [], arith, false, if-elim, inl, inr, lookup,
  none, refl, some, subst, sum_of, true, ℕ, ◌+◌, ◌=ₛ◌, ◌≡◌,
}
use mod_sec_intl_wace_lib.ConfigStore.Defs.{ConfigPointer, get}
use mod_sec_intl_wace_lib.PluginManager.Process.{ModelPluginData}
use mod_sec_intl_wace_lib.PluginManager.Loading.World.{
  Env, Resource, Role, World, callback_of, handler_of, make,
}
use mod_sec_intl_wace_lib.PluginManager.Loading.Manager.{
  Manager, and_then, empty_manager, fill_manager, load_decisions, load_models, new_manager,
  register_metrics, reload_manager,
}
use mod_sec_intl_wace_lib.PluginManager.Loading.Ledger.{
  IsOrderly, IsSound, acquired_count, here, released_count,
}
use mod_sec_intl_wace_lib.PluginManager.Loading.LedgerLaws.{IsSound-eq, make-callback_of-IsSound}
use mod_sec_intl_wace_lib.PluginManager.Loading.HandlersLaws.{give_back?-callback_of-IsSound, held}
use mod_sec_intl_wace_lib.PluginManager.Loading.AdaptLaws.{IsPaired}
use mod_sec_intl_wace_lib.PluginManager.Loading.EquipLaws.{models_use, models_use-handler_of}
use mod_sec_intl_wace_lib.PluginManager.Loading.LoadLaws.{load_model_plugins-IsKept}
use mod_sec_intl_wace_lib.PluginManager.Loading.DecisionsHeld.{
  decisions_use, decisions_use-handler_of,
}
use mod_sec_intl_wace_lib.PluginManager.Loading.DecisionsLaws.{load_decision_plugins-AreKept}

-- What the plugin manager holds: the instances, trainings and handlers of its plugins, and its
-- callback.
abbrev pub owned : Manager → Resource → ℕ
owned p r = models_use r p.models + decisions_use r p.decisions + held r callback_of p.metrics_reg

-- The log is in order, and what is open is what the plugin manager holds.
pub record ManagerInv (p : Manager) : Type 0 where
  pub sound : IsSound p.world (owned p)
  pub distinct_models : Distinct p.models
  pub distinct_decisions : Distinct p.decisions
  pub paired : (id : String) (mp : ModelPluginData) → lookup id p.models ≡ some mp → IsPaired mp

held-callback_of :
    (role : Role) (i n : ℕ) (o : Option ℕ) → held (handler_of role i n) callback_of o ≡ 0
unfolding held here
held-callback_of role i n none = refl
held-callback_of role i n (some c) = refl

load_models-ManagerInv :
    (env : Env) (workers : ℕ) (config : ConfigPointer) (p : Manager)
    → ManagerInv p
    → ManagerInv (load_models env workers config p).0
unfolding load_models
load_models-ManagerInv env workers config p v =
    let others : Resource → ℕ =
      λ r. decisions_use r p.decisions + held r callback_of p.metrics_reg in
    let k =
      load_model_plugins-IsKept others
        (λ role i n. omega (
          arith,
          decisions_use-handler_of role i n p.decisions,
          held-callback_of role i n p.metrics_reg,
        ))
        env workers config _
        (record {
          sound = IsSound-eq _ _ _ v.sound (λ r. omega arith);
          distinct = v.distinct_models;
          paired = v.paired;
        }) in
    record {
      sound = IsSound-eq _ _ _ k.sound (λ r. omega arith);
      distinct_models = k.distinct;
      distinct_decisions = v.distinct_decisions;
      paired = k.paired;
    }

zero_left : (m n : ℕ) → m + n ≡ 0 → m ≡ 0
zero_left m n h = omega arith

load_decisions-ManagerInv :
    (env : Env) (config : ConfigPointer) (p : Manager)
    → ManagerInv p
    → ManagerInv (load_decisions env config p).0
unfolding load_decisions
load_decisions-ManagerInv env config p v =
    let others : Resource → ℕ = λ r. models_use r p.models + held r callback_of p.metrics_reg in
    let k =
      load_decision_plugins-AreKept others
        (λ role i n unheld. omega (
          arith,
          models_use-handler_of role i n p.models (zero_left _ _ unheld),
          held-callback_of role i n p.metrics_reg,
        ))
        env config _
        (record {
          sound = IsSound-eq _ _ _ v.sound (λ r. omega arith);
          distinct = v.distinct_decisions;
        }) in
    record {
      sound = IsSound-eq _ _ _ k.sound (λ r. omega arith);
      distinct_models = v.distinct_models;
      distinct_decisions = k.distinct;
      paired = v.paired;
    }

register_metrics-ManagerInv :
    (env : Env) (p : Manager) → ManagerInv p → ManagerInv (register_metrics env p).0
unfolding register_metrics make held
register_metrics-ManagerInv env p v = elim (Result-cases env.make_gauge) [
  | inl (e, g) ↦ rw (g, register_metrics) v
  | inr (_, g) ↦ elim (Result-cases env.register_callback) [
    | inl (e, c) ↦ rw (g, c, register_metrics) v
    | inr (_, c) ↦
        rw (g, c, register_metrics)
          (record {
            sound =
                give_back?-callback_of-IsSound _ _ _ p.metrics_reg
                  (make-callback_of-IsSound p.world _
                    (λ r. here r (callback_of p.world.next) + owned p r) v.sound (λ r. refl))
                  (λ r. omega arith);
            distinct_models = v.distinct_models;
            distinct_decisions = v.distinct_decisions;
            paired = v.paired;
          })
  ]
]

and_then-ManagerInv :
    (o : Manager × Option Error) (f : Manager → Manager × Option Error)
    → ManagerInv o.0
    → ((p : Manager) → ManagerInv p → ManagerInv (f p).0)
    → ManagerInv (and_then o f).0
and_then-ManagerInv (p, none) f v h = h p v
and_then-ManagerInv (p, some e) f v h = v

reload_manager-ManagerInv :
    (env : Env) (workers : ℕ) (config : ConfigPointer) (p : Manager)
    → ManagerInv p
    → ManagerInv (reload_manager env workers config p).0
unfolding reload_manager
reload_manager-ManagerInv env workers config p v =
    and_then-ManagerInv (load_models env workers config p) _
      (load_models-ManagerInv env workers config p v)
      λ p' v'.
        and_then-ManagerInv (load_decisions env config p') (register_metrics env)
          (load_decisions-ManagerInv env config p' v') (register_metrics-ManagerInv env)

fill_manager-ManagerInv :
    (env : Env) (workers : ℕ) (config : ConfigPointer) (p : Manager)
    → ManagerInv p
    → ManagerInv (fill_manager env workers config p).0
unfolding fill_manager
fill_manager-ManagerInv env workers config p v =
    register_metrics-ManagerInv env _
      (load_decisions-ManagerInv env config _ (load_models-ManagerInv env workers config p v))

-- A process in which nothing has been made yet.
abbrev pub first_world : World
first_world = record { next = 0; log = [] }

empty_manager-ManagerInv :
    (b : Bool) → ManagerInv (record (empty_manager first_world) { connected = b })
unfolding sum_of held lookup acquired_count released_count
empty_manager-ManagerInv b = record {
  sound = record {
    balance = λ r. omega arith;
    orderly = tt;
    fresh = λ n h. refl;
    single = λ n. omega arith;
  };
  distinct_models = tt;
  distinct_decisions = tt;
  paired = λ id mp e. cc;
}

new_manager-ManagerInv :
    (env : Env) (workers : ℕ) (config : ConfigPointer)
    → ManagerInv (new_manager env workers config first_world).0
unfolding new_manager
new_manager-ManagerInv env workers config = elim (Result-cases (get config)) [
  | inl (e, g) ↦ rw (g, new_manager) (empty_manager-ManagerInv false)
  | inr (conf, g) ↦
      rw (g, new_manager)
        (if-elim (λ (o : Manager × Option Error). ManagerInv o.0) (conf.nats_url =ₛ "") _ _
          (λ _. fill_manager-ManagerInv env workers config _ (empty_manager-ManagerInv false))
          (λ _. elim (Result-cases (env.connect_manager conf.nats_url)) [
            | inl (e, c) ↦ rw c (empty_manager-ManagerInv false)
            | inr (_, c) ↦
                rw c (fill_manager-ManagerInv env workers config _ (empty_manager-ManagerInv true))
          ]))
]

-- A plugin manager that `New` has returned, after any number of reloads, each with its own
-- configuration, and whether they have ended with an error or not.
pub data Managed : Manager → Type 0 where
  created :
      (env : Env) (workers : ℕ) (config : ConfigPointer) (p : Manager)
      → new_manager env workers config first_world ≡ (p, none)
      → Managed p
  after_reload :
      {p : Manager} (env : Env) (workers : ℕ) (config : ConfigPointer)
      → Managed p
      → Managed (reload_manager env workers config p).0

pub Managed-ManagerInv : {p : Manager} → Managed p → ManagerInv p
Managed-ManagerInv (created env workers config p e) =
    subst (λ (o : Manager × Option Error). ManagerInv o.0) e
      (new_manager-ManagerInv env workers config)
Managed-ManagerInv (after_reload {p} env workers config m) =
    reload_manager-ManagerInv env workers config p (Managed-ManagerInv m)

-- Over the whole life of a plugin manager that `New` has returned, through any number of reloads,
-- each instance of a plugin is made once; its `Reload` is called and its handlers are started only
-- between its constructor and its `Clean`; it is cleaned only when all its handlers have been
-- stopped; and trainings, handlers and callbacks are given back only while they are open.
pub Managed-IsOrderly : {p : Manager} → Managed p → IsOrderly p.world.log
Managed-IsOrderly m = (Managed-ManagerInv m).sound.orderly

-- At each point between the reloads of such a plugin manager, what was made and not given back is
-- exactly what it holds: the instances, trainings and handlers of its loaded plugins, and its
-- callback. So nothing is lost, and nothing that was given back is still held.
pub Managed-owned :
    {p : Manager} (r : Resource)
    → Managed p
    → acquired_count r p.world.log ≡ released_count r p.world.log + owned p r
Managed-owned r m = (Managed-ManagerInv m).sound.balance r
