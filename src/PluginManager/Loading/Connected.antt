-- ===== src/PluginManager/Loading/Connected.antt =====
-- pluginmanager/pluginmanager.go, the NATS connection of a plugin manager over New and Reload.
use mod_sec_intl_wace_lib.Base.{
  Bool, Bool-cases, Error, Option, Result-cases, inl, inr, none, not, refl, some, true, ℕ, ◌=ₛ◌,
  ◌∙◌, ◌≡◌,
}
use mod_sec_intl_wace_lib.ConfigStore.Defs.{ConfigPointer, ConfigStore, get}
use mod_sec_intl_wace_lib.PluginManager.Loading.World.{Env, World}
use mod_sec_intl_wace_lib.PluginManager.Loading.Manager.{
  Manager, and_then, empty_manager, fill_manager, load_decisions, load_models, new_manager,
  register_metrics, reload_manager,
}

register_metrics-connected :
    (env : Env) (p : Manager) → (register_metrics env p).0.connected ≡ p.connected
unfolding register_metrics
register_metrics-connected env p = elim (Result-cases env.make_gauge) [
  | inl (e, g) ↦ simp (g, register_metrics)
  | inr (_, g) ↦ elim (Result-cases env.register_callback) [
    | inl (e, r) ↦ simp (g, r, register_metrics)
    | inr (_, r) ↦ simp (g, r, register_metrics)
  ]
]

and_then-connected :
    (b : Bool) (o : Manager × Option Error) (f : Manager → Manager × Option Error)
    → o.0.connected ≡ b
    → ((p : Manager) → (f p).0.connected ≡ p.connected)
    → (and_then o f).0.connected ≡ b
and_then-connected b (p, none) f h k = k p ∙ h
and_then-connected b (p, some e) f h k = h

pub reload_manager-connected :
    (env : Env) (workers : ℕ) (config : ConfigPointer) (p : Manager)
    → (reload_manager env workers config p).0.connected ≡ p.connected
unfolding reload_manager load_models load_decisions
reload_manager-connected env workers config p =
    and_then-connected p.connected (load_models env workers config p) _ refl λ p'.
      and_then-connected p'.connected (load_decisions env config p') _ refl
        λ p''. register_metrics-connected env p''

fill_manager-connected :
    (env : Env) (workers : ℕ) (config : ConfigPointer) (p : Manager)
    → (fill_manager env workers config p).0.connected ≡ p.connected
unfolding fill_manager load_models load_decisions
fill_manager-connected env workers config p = register_metrics-connected env _

-- A plugin manager that `New` returns has a connection exactly when there is a URL.
pub new_manager-connected :
    (env : Env) (workers : ℕ) (cs : ConfigStore) (w : World)
    → (new_manager env workers (some cs) w).1 ≡ none
    → (new_manager env workers (some cs) w).0.connected ≡ not (cs.nats_url =ₛ "")
unfolding new_manager get
new_manager-connected env workers cs w = elim (Bool-cases (cs.nats_url =ₛ "")) [
  | inl e ↦
      rw (e, new_manager) (λ _. fill_manager-connected env workers (some cs) (empty_manager w))
  | inr e ↦
      rw (e, new_manager)
        (elim (Result-cases (env.connect_manager cs.nats_url)) [
          | inl (e', c) ↦ rw c (λ failed. cc)
          | inr (_, c) ↦ rw c (λ _.
              fill_manager-connected env workers (some cs)
                (record (empty_manager w) { connected = true }))
        ])
]
