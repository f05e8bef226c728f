-- ===== src/PluginManager/Loading/HandlersLaws.antt =====
-- pluginmanager/pluginmanager.go, the ledger over startHandlers and stopHandlers.
use mod_sec_intl_wace_lib.Base.{
  Option, Result, Result-cases, String, arith, err, inl, inr, none, ok, refl, some, ℕ, ◌+◌, ◌<◌,
  ◌>>◌, ◌≡◌,
}
use mod_sec_intl_wace_lib.ConfigStore.Defs.{ConfigPointer, get}
use mod_sec_intl_wace_lib.PluginManager.Process.{Handle, ModelPluginData}
use mod_sec_intl_wace_lib.PluginManager.Loading.World.{
  Env, Resource, Role, World, callback_of, give_back, give_back?, handler_of, inputs, instance_of,
  make, results, training_of,
}
use mod_sec_intl_wace_lib.PluginManager.Loading.Handlers.{
  model_process_handler, model_results_handler, queue_subscribe_all, start_handlers, stop_handlers,
  with_inputs, with_results,
}
use mod_sec_intl_wace_lib.PluginManager.Loading.Ledger.{IsSound, here}
use mod_sec_intl_wace_lib.PluginManager.Loading.LedgerLaws.{
  IsSound-eq, give_back-callback_of-IsSound, give_back-handler_of-IsSound,
  give_back-training_of-IsSound, make-handler_of-IsSound,
}

-- What a field of a plugin holds.
unfoldable pub held : Resource → (ℕ → Resource) → Option ℕ → ℕ
held r x none = 0
held r x (some n) = here r (x n)

-- What a model plugin holds.
unfoldable pub model_uses : Resource → ModelPluginData → ℕ
model_uses r mp =
    here r (instance_of mp.model_plugin)
    + held r training_of mp.training
    + held r (handler_of inputs mp.model_plugin) mp.process_handler
    + held r (handler_of results mp.model_plugin) mp.results_handler

-- A handler that was started is held beside the rest; one that was not leaves nothing behind.
abbrev pub Starts : Role → Handle → (Resource → ℕ) → World × Result ℕ → Type 0
Starts role i hold (w, err e) = IsSound w hold
Starts role i hold (w, ok h) = IsSound w (λ r. here r (handler_of role i h) + hold r)

-- Of the two handlers of a plugin both are started, or none is left.
abbrev pub StartsBoth : ModelPluginData → (Resource → ℕ) → World × Result ModelPluginData → Type 0
StartsBoth mp hold (w, err e) = IsSound w hold
StartsBoth mp hold (w, ok mp') =
    (ph : ℕ) × (rh : ℕ) × (mp' ≡ record mp { process_handler = some ph; results_handler = some rh })
    × IsSound w (λ r.
      here r (handler_of inputs mp.model_plugin ph)
      + here r (handler_of results mp.model_plugin rh)
      + hold r)

module _ (env : Env) (workers : ℕ) (config : ConfigPointer) (hold : Resource → ℕ) where
  handler_back :
      (role : Role) (i : Handle) (w : World)
      → 0 < hold (instance_of i)
      → IsSound w hold
      → IsSound (give_back (handler_of role i w.next) (make (handler_of role i) w).0) hold
  handler_back role i w live s =
      let more : Resource → ℕ = λ r. here r (handler_of role i w.next) + hold r in
      give_back-handler_of-IsSound (make (handler_of role i) w).0 more hold
        (make-handler_of-IsSound w hold more s role i live (λ r. refl)) role i w.next (λ r. refl)

  model_process_handler-Starts :
      (id : String) (i : Handle) (w : World)
      → 0 < hold (instance_of i)
      → IsSound w hold
      → Starts inputs i hold (model_process_handler env workers config id i w)
  unfolding model_process_handler make
  model_process_handler-Starts id i w live s = elim (Result-cases (get config)) [
    | inl (e, g) ↦ rw (g, model_process_handler) s
    | inr (cs, g) ↦ elim (Result-cases (env.connect id cs.nats_url)) [
      | inl (e, c) ↦ rw (g, c, model_process_handler) s
      | inr (_, c) ↦
          elim (Result-cases
            (queue_subscribe_all env workers config id workers 0 >> env.flush_inputs id)) [
              | inl (e, q) ↦ rw (g, c, q, model_process_handler) (handler_back inputs i w live s)
              | inr (_, q) ↦
                  rw (g, c, q, model_process_handler)
                    (make-handler_of-IsSound w hold _ s inputs i live (λ r. refl))
            ]
    ]
  ]

  model_results_handler-Starts :
      (id : String) (i : Handle) (w : World)
      → 0 < hold (instance_of i)
      → IsSound w hold
      → Starts results i hold (model_results_handler env workers config id i w)
  unfolding model_results_handler make
  model_results_handler-Starts id i w live s = elim (Result-cases (env.subscribe_results id)) [
    | inl (e, c) ↦ rw (c, model_results_handler) s
    | inr (_, c) ↦ elim (Result-cases (env.flush_results id)) [
      | inl (e, q) ↦ rw (c, q, model_results_handler) (handler_back results i w live s)
      | inr (_, q) ↦
          rw (c, q, model_results_handler)
            (make-handler_of-IsSound w hold _ s results i live (λ r. refl))
    ]
  ]

module _ (env : Env) (workers : ℕ) (config : ConfigPointer) (hold : Resource → ℕ)
    (mp : ModelPluginData) where
  with_results-StartsBoth :
      (ph : ℕ) (o : World × Result ℕ)
      → Starts results mp.model_plugin
          (λ r. here r (handler_of inputs mp.model_plugin ph) + hold r)
          o
      → StartsBoth mp hold (with_results env workers config mp ph o)
  unfolding with_results
  with_results-StartsBoth ph (w, err e) s =
      give_back-handler_of-IsSound w _ hold s inputs mp.model_plugin ph (λ r. refl)
  with_results-StartsBoth ph (w, ok rh) s = (ph, rh, refl, IsSound-eq w _ _ s (λ r. omega arith))

  with_inputs-StartsBoth :
      (id : String) (o : World × Result ℕ)
      → 0 < hold (instance_of mp.model_plugin)
      → Starts inputs mp.model_plugin hold o
      → StartsBoth mp hold (with_inputs env workers config id mp o)
  unfolding with_inputs
  with_inputs-StartsBoth id (w, err e) live s = s
  with_inputs-StartsBoth id (w, ok ph) live s =
      with_results-StartsBoth ph _
        (model_results_handler-Starts env workers config _ id mp.model_plugin w (omega arith) s)

  pub start_handlers-StartsBoth :
      (id : String) (w : World)
      → 0 < hold (instance_of mp.model_plugin)
      → IsSound w hold
      → StartsBoth mp hold (start_handlers env workers config id mp w)
  unfolding start_handlers
  start_handlers-StartsBoth id w live s =
      with_inputs-StartsBoth id _ live
        (model_process_handler-Starts env workers config hold id mp.model_plugin w live s)

-- What a field held is given back.
pub give_back?-training_of-IsSound :
    (w : World) (hold hold' : Resource → ℕ) (o : Option ℕ)
    → IsSound w hold
    → ((r : Resource) → hold r ≡ held r training_of o + hold' r)
    → IsSound (give_back? training_of o w) hold'
unfolding give_back? held
give_back?-training_of-IsSound w hold hold' none s h =
    IsSound-eq w hold hold' s (λ r. omega (arith, h r))
give_back?-training_of-IsSound w hold hold' (some t) s h =
    give_back-training_of-IsSound w hold hold' s t h

give_back?-handler_of-IsSound :
    (w : World) (hold hold' : Resource → ℕ) (role : Role) (i : Handle) (o : Option ℕ)
    → IsSound w hold
    → ((r : Resource) → hold r ≡ held r (handler_of role i) o + hold' r)
    → IsSound (give_back? (handler_of role i) o w) hold'
unfolding give_back? held
give_back?-handler_of-IsSound w hold hold' role i none s h =
    IsSound-eq w hold hold' s (λ r. omega (arith, h r))
give_back?-handler_of-IsSound w hold hold' role i (some n) s h =
    give_back-handler_of-IsSound w hold hold' s role i n h

pub give_back?-callback_of-IsSound :
    (w : World) (hold hold' : Resource → ℕ) (o : Option ℕ)
    → IsSound w hold
    → ((r : Resource) → hold r ≡ held r callback_of o + hold' r)
    → IsSound (give_back? callback_of o w) hold'
unfolding give_back? held
give_back?-callback_of-IsSound w hold hold' none s h =
    IsSound-eq w hold hold' s (λ r. omega (arith, h r))
give_back?-callback_of-IsSound w hold hold' (some c) s h =
    give_back-callback_of-IsSound w hold hold' s c h

pub stop_handlers-IsSound :
    (mp : ModelPluginData) (w : World) (hold hold' : Resource → ℕ)
    → IsSound w hold
    → ((r : Resource) → hold r + model_uses r (stop_handlers mp w).1 ≡ model_uses r mp + hold' r)
    → IsSound (stop_handlers mp w).0 hold'
unfolding stop_handlers model_uses held
stop_handlers-IsSound mp w hold hold' s h =
    let i = mp.model_plugin in
    give_back?-handler_of-IsSound _
      (λ r. held r (handler_of results i) mp.results_handler + hold' r) hold' results i
      mp.results_handler
      (give_back?-handler_of-IsSound w hold _ inputs i mp.process_handler s
        (λ r. omega (arith, h r)))
      (λ r. refl)
