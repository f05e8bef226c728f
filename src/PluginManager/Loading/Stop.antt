-- ===== src/PluginManager/Loading/Stop.antt =====
-- pluginmanager/pluginmanager.go, NatsHandler.Stop. Subscriptions are known by numbers, and `drain` and
-- `flush` are what NATS returns for its calls; a drain that has started ends with the closed status.
use mod_sec_intl_wace_lib.Base.{Error, List, Option, [], joined, none, some, ℕ, ◌++◌, ◌∷◌}

-- `conn` is the handler's own connection, or nil.
pub record NatsHandler : Type 0 where
  pub subs : List ℕ
  pub conn : Option ℕ

-- `StatusChanged`, `Drain` without and with an error, the closed status, `Flush` and `Close`.
pub data StopEvent : Type 0 where
  watched draining not_draining drained : ℕ → StopEvent
  flushed closed : ℕ → StopEvent

-- The first loop: what it does, the errors, and the subscriptions that it will wait for.
unfoldable pub drain_loop : (ℕ → Option Error) → List ℕ → List StopEvent × List Error × List ℕ
drain_loop drain [] = ([], [], [])
drain_loop drain (sub ∷ subs) =
    let (events, errs, waiting) = drain_loop drain subs in
    elim (drain sub) [
      | some e ↦ (watched sub ∷ not_draining sub ∷ events, e ∷ errs, waiting)
      | none ↦ (watched sub ∷ draining sub ∷ events, errs, sub ∷ waiting)
    ]

-- The second loop.
unfoldable pub await_loop : List ℕ → List StopEvent
await_loop [] = []
await_loop (sub ∷ subs) = drained sub ∷ await_loop subs

-- `if h.conn != nil { … }`
unfoldable pub close_conn : Option Error → Option ℕ → List StopEvent × List Error
close_conn flush none = ([], [])
close_conn none (some c) = (flushed c ∷ closed c ∷ [], [])
close_conn (some e) (some c) = (flushed c ∷ closed c ∷ [], e ∷ [])

-- `errors.Join`
unfoldable pub join_all : List Error → Option Error
join_all [] = none
join_all (e ∷ es) = elim (join_all es) [ none ↦ some e | some f ↦ some (joined e f) ]

-- `Stop`
unfoldable pub stop :
    (ℕ → Option Error) → Option Error → NatsHandler → List StopEvent × Option Error
unfolding drain_loop await_loop close_conn join_all
stop drain flush h =
    let (events, errs, waiting) = drain_loop drain h.subs in
    let (last, more) = close_conn flush h.conn in
    (events ++ (await_loop waiting ++ last), join_all (errs ++ more))
