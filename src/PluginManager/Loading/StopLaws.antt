-- ===== src/PluginManager/Loading/StopLaws.antt =====
-- pluginmanager/pluginmanager.go, NatsHandler.Stop: what has ended when the connection is closed, and
-- when there is an error.
use mod_sec_intl_wace_lib.Base.{
  ==_iff, Bool, Error, List, Option, Option-cases, [], arith, false, if◌then◌else◌, inl, inr, none,
  not, refl, some, suc, true, ℕ, ◌&&◌, ◌++◌, ◌==◌, ◌∙◌, ◌∷◌, ◌≡◌,
}
use mod_sec_intl_wace_lib.PluginManager.Loading.Stop.{
  NatsHandler, StopEvent, await_loop, close_conn, closed, drain_loop, drained, draining, flushed,
  join_all, not_draining, stop, watched,
}

-- How a subscription stands behind some events.
pub data Phase : Type 0 where
  unseen looked_at at_work ended refused : Phase

-- The events in their order; `none` for one that is out of it.
unfoldable pub watch : Phase → Option Phase
watch unseen = some looked_at
watch looked_at = none
watch at_work = none
watch ended = none
watch refused = none

-- The drain starts only under watch.
unfoldable pub start_drain : Phase → Option Phase
start_drain unseen = none
start_drain looked_at = some at_work
start_drain at_work = none
start_drain ended = none
start_drain refused = none

-- So does one that NATS refuses.
unfoldable pub refuse_drain : Phase → Option Phase
refuse_drain unseen = none
refuse_drain looked_at = some refused
refuse_drain at_work = none
refuse_drain ended = none
refuse_drain refused = none

-- Only a drain that has started ends.
unfoldable pub end_drain : Phase → Option Phase
end_drain unseen = none
end_drain looked_at = none
end_drain at_work = some ended
end_drain ended = none
end_drain refused = none

-- The connection is not touched while a subscription still drains.
unfoldable pub keep_phase : Phase → Option Phase
keep_phase unseen = some unseen
keep_phase looked_at = none
keep_phase at_work = none
keep_phase ended = some ended
keep_phase refused = some refused

unfoldable pub advance : ℕ → StopEvent → Phase → Option Phase
unfolding watch start_drain refuse_drain end_drain keep_phase
advance s (watched t) p = if s == t then watch p else some p
advance s (draining t) p = if s == t then start_drain p else some p
advance s (not_draining t) p = if s == t then refuse_drain p else some p
advance s (drained t) p = if s == t then end_drain p else some p
advance s (flushed c) p = keep_phase p
advance s (closed c) p = keep_phase p

unfoldable pub follow : ℕ → List StopEvent → Phase → Option Phase
unfolding advance
follow s [] p = some p
follow s (e ∷ es) p = elim (advance s e p) [ none ↦ none | some q ↦ follow s es q ]

-- How often a subscription is in a list.
unfoldable pub times : ℕ → List ℕ → ℕ
times s [] = 0
times s (t ∷ ts) = let rest = times s ts in if s == t then suc rest else rest

-- What becomes of a subscription by its drain.
unfoldable pub drained_to : Option Error → Phase → Phase
drained_to none p = p
drained_to (some e) p = refused

module _ (drain : ℕ → Option Error) (s : ℕ) where
  drain_loop-absent :
      (subs : List ℕ) (rest : List StopEvent) (p : Phase)
      → times s subs ≡ 0
      → follow s ((drain_loop drain subs).0 ++ rest) p ≡ follow s rest p
  unfolding drain_loop times follow advance
  drain_loop-absent [] rest p h = refl
  drain_loop-absent (t ∷ subs) rest p h = ground (arith, drain_loop-absent subs rest p)

  drain_loop-once :
      (subs : List ℕ) (rest : List StopEvent)
      → times s subs ≡ 1
      → follow s ((drain_loop drain subs).0 ++ rest) unseen
        ≡ follow s rest (drained_to (drain s) at_work)
  unfolding drain_loop times follow advance drained_to watch start_drain refuse_drain
  drain_loop-once [] rest h = cc
  drain_loop-once (t ∷ subs) rest h = ground (
    arith,
    ==_iff s t,
    drain_loop-once subs rest,
    drain_loop-absent subs rest at_work,
    drain_loop-absent subs rest refused,
  )

  drain_loop-waiting :
      (subs : List ℕ)
      → times s (drain_loop drain subs).2 ≡ (elim (drain s) [ none ↦ times s subs | some e ↦ 0 ])
  unfolding drain_loop times
  drain_loop-waiting [] = ground arith
  drain_loop-waiting (t ∷ subs) = ground (arith, ==_iff s t, drain_loop-waiting subs)

await_loop-absent :
    (s : ℕ) (ws : List ℕ) (rest : List StopEvent) (p : Phase)
    → times s ws ≡ 0
    → follow s (await_loop ws ++ rest) p ≡ follow s rest p
unfolding await_loop times follow advance
await_loop-absent s [] rest p h = refl
await_loop-absent s (t ∷ ws) rest p h = ground (arith, await_loop-absent s ws rest p)

await_loop-once :
    (s : ℕ) (ws : List ℕ) (rest : List StopEvent)
    → times s ws ≡ 1
    → follow s (await_loop ws ++ rest) at_work ≡ follow s rest ended
unfolding await_loop times follow advance end_drain
await_loop-once s [] rest h = cc
await_loop-once s (t ∷ ws) rest h =
    ground (arith, await_loop-once s ws rest, await_loop-absent s ws rest ended)

close_conn-kept :
    (s : ℕ) (flush : Option Error) (conn : Option ℕ) (p : Phase)
    → keep_phase p ≡ some p
    → follow s (close_conn flush conn).0 p ≡ some p
unfolding close_conn follow advance
close_conn-kept s flush none p h = refl
close_conn-kept s none (some c) p h = ground (arith, h)
close_conn-kept s (some e) (some c) p h = ground (arith, h)

-- Every drain has started.
unfoldable pub all_drain : (ℕ → Option Error) → List ℕ → Bool
all_drain drain [] = true
all_drain drain (sub ∷ subs) =
    let rest = all_drain drain subs in elim (drain sub) [ none ↦ rest | some e ↦ false ]

-- There is no connection of its own, or its flush has not failed.
unfoldable pub is_flushed : Option Error → Option ℕ → Bool
is_flushed flush none = true
is_flushed none (some c) = true
is_flushed (some e) (some c) = false

unfoldable pub has_error : Option Error → Bool
has_error none = false
has_error (some e) = true

drain_loop-errors :
    (drain : ℕ → Option Error) (flush : Option Error) (subs : List ℕ) (conn : Option ℕ)
    → has_error (join_all ((drain_loop drain subs).1 ++ (close_conn flush conn).1))
      ≡ not (all_drain drain subs && is_flushed flush conn)
unfolding has_error join_all drain_loop close_conn all_drain is_flushed
drain_loop-errors drain flush [] none = refl
drain_loop-errors drain none [] (some c) = refl
drain_loop-errors drain (some e) [] (some c) = refl
drain_loop-errors drain flush (sub ∷ subs) conn =
    ground (arith, drain_loop-errors drain flush subs conn)

-- `Stop` drains a subscription that its handler has once: it watches it, then starts the drain, and
-- waits for its end unless NATS refuses it, and only then it touches the handler's own connection.
-- It returns an error exactly when NATS has refused a drain, or the flush of that connection has
-- failed.
pub stop-drains :
    (drain : ℕ → Option Error) (flush : Option Error) (h : NatsHandler) (s : ℕ)
    → times s h.subs ≡ 1
    → (follow s (stop drain flush h).0 unseen ≡ some (drained_to (drain s) ended))
      × (has_error (stop drain flush h).1 ≡ not (all_drain drain h.subs && is_flushed flush h.conn))
unfolding stop drained_to keep_phase
stop-drains drain flush h s once =
    let last = (close_conn flush h.conn).0 in
    let waiting = (drain_loop drain h.subs).2 in
    let through = drain_loop-once drain s h.subs (await_loop waiting ++ last) once in
    let waits = drain_loop-waiting drain s h.subs in
    let ends : follow s (await_loop waiting ++ last) (drained_to (drain s) at_work)
        ≡ some (drained_to (drain s) ended) =
      elim (Option-cases (drain s)) [
        | inl e ↦ rw e (
            await_loop-once s waiting last (waits ∙ rw e once)
            ∙ close_conn-kept s flush h.conn ended refl)
        | inr (x, e) ↦ rw e (
            await_loop-absent s waiting last refused (waits ∙ rw e refl)
            ∙ close_conn-kept s flush h.conn refused refl)
      ] in
    (through ∙ ends, drain_loop-errors drain flush h.subs h.conn)
