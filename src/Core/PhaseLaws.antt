-- ===== src/Core/PhaseLaws.antt =====
-- wacecore.go, callPlugins: all the sync calls of a transaction, against their outcomes.
use mod_sec_intl_wace_lib.Base.{
  All, List, Map, Option, Option-cases, Result, [], ap, append-nil, append_assoc, arith, inl, inr,
  length, length-append, none, refl, some, ℕ, ◌++◌, ◌+◌, ◌<◌, ◌∙◌, ◌∷◌, ◌≡◌, ◌≤◌,
}
use mod_sec_intl_wace_lib.WaceApi.{ModelResults}
use mod_sec_intl_wace_lib.PluginManager.Tx.{Chan, ModelStatus, Store}
use mod_sec_intl_wace_lib.Core.Dispatch.{Dispatch}
use mod_sec_intl_wace_lib.Core.Phase.{Phase, end_call, end_calls}
use mod_sec_intl_wace_lib.Core.Outcomes.{outcome, results_after, status_of, statuses, store_outcome}
use mod_sec_intl_wace_lib.Core.SettleLaws.{KeepsId, Waits, filled, settle-Waits}
use mod_sec_intl_wace_lib.Core.MessageLaws.{end_call-silent}
use mod_sec_intl_wace_lib.Core.RemoteLaws.{IsDue, end_call-settle, settle_if}

-- The channel with statuses behind those it has.
abbrev pub extended : Chan → List ModelStatus → Chan
extended ch statuses = record ch { buffer = ch.buffer ++ statuses }

end_calls-end_call :
    (p : Phase) (d : Dispatch) (ds : List Dispatch) (s : Store) (o : Option Store)
    → end_call p d s ≡ o
    → end_calls p (d ∷ ds) s ≡ elim o [ none ↦ none | some s' ↦ end_calls p ds s' ]
unfolding end_calls end_call
end_calls-end_call p d ds s o h = ap (λ x. elim x [ none ↦ none | some s' ↦ end_calls p ds s' ]) h

module _ (p : Phase) (keeps : KeepsId p) (a : ℕ) where
  -- What is left of a transaction by calls that do not block.
  abbrev pub IsLeft : List Dispatch → Map ModelResults → Chan → Option Store → Type 0
  IsLeft ds results ch end =
      (s' : Store) × (end ≡ some s')
      × Waits p s' a (results_after p ds results) (extended ch (statuses p ds))

  -- A call that reports is settled, and what it leaves is what the calls behind it find.
  end_call-IsLeft :
      (d : Dispatch) (ds : List Dispatch) (s : Store) (results : Map ModelResults) (ch : Chan)
      (r : Result ModelResults)
      → Waits p s a results ch
      → IsDue p d
      → length ch.buffer < ch.capacity
      → outcome p d ≡ some r
      → ((s' : Store)
          → Waits p s' a (store_outcome d.model r results) (filled ch (status_of d.model r))
          → IsLeft ds
              (store_outcome d.model r results)
              (filled ch (status_of d.model r))
              (end_calls p ds s'))
      → IsLeft (d ∷ ds) results ch (end_calls p (d ∷ ds) s)
  unfolding statuses results_after
  end_call-IsLeft d ds s results ch r w due room o more =
      let (s', settled, w') = settle-Waits p s a results ch w room d.model r in
      let (s'', ended, w'') = more s' w' in
      (
        s'',
        end_calls-end_call p d ds s (some s') (
              end_call-settle p s a results ch w room keeps d due
              ∙ ap (settle_if p s d.model) o
              ∙ settled)
            ∙ ended,
        rw (o, results_after, statuses)
            (rw⁻¹ (append_assoc ch.buffer (status_of d.model r ∷ []) (statuses p ds)) w''),
      )

  pub end_calls-IsLeft :
      (ds : List Dispatch) (s : Store) (results : Map ModelResults) (ch : Chan)
      → Waits p s a results ch
      → All (IsDue p) ds
      → length ch.buffer + length (statuses p ds) ≤ ch.capacity
      → IsLeft ds results ch (end_calls p ds s)
  unfolding end_calls statuses results_after
  end_calls-IsLeft [] s results ch w due room = (s, refl, rw (append-nil ch.buffer) w)
  end_calls-IsLeft (d ∷ ds) s results ch w (due, rest) room = elim (Option-cases (outcome p d)) [
    | inl silent ↦
        let (s', ended, w') =
          end_calls-IsLeft ds s results ch w rest (rw (silent, statuses) at room) in
        (
          s',
          end_calls-end_call p d ds s (some s) (end_call-silent p d s keeps silent) ∙ ended,
          rw (silent, results_after, statuses) w',
        )
    | inr (r, o) ↦
        let room' = rw (o, statuses) at room in
        end_call-IsLeft d ds s results ch r w due (omega (arith, room')) o (λ s' w'.
          end_calls-IsLeft ds s' (store_outcome d.model r results) (filled ch (status_of d.model r))
            w' rest
            (rw (length-append ch.buffer (status_of d.model r ∷ [])) (omega (arith, room'))))
  ]
