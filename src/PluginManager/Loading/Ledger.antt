-- ===== src/PluginManager/Loading/Ledger.antt =====
-- pluginmanager/pluginmanager.go, the log of World read as a ledger: how often each resource was made
-- and given back, and which uses of a plugin are in order.
use mod_sec_intl_wace_lib.Base.{
  Bool, List, [], false, if◌then◌else◌, true, ℕ, ◌&&◌, ◌+◌, ◌<◌, ◌==◌, ◌∷◌, ◌≡◌, ◌≤◌,
}
use mod_sec_intl_wace_lib.PluginManager.Loading.World.{
  Effect, Resource, Role, World, acquired, callback_of, handler_of, inputs, instance_of, released,
  reloaded, results, training_of,
}

unfoldable pub same_role : Role → Role → Bool
same_role inputs inputs = true
same_role results results = true
same_role inputs results = false
same_role results inputs = false

unfoldable pub same : Resource → Resource → Bool
unfolding same_role
same (instance_of i) (instance_of j) = i == j
same (training_of t) (training_of u) = t == u
same (handler_of r i h) (handler_of r' j k) = same_role r r' && i == j && h == k
same (callback_of c) (callback_of d) = c == d
same (instance_of i) (training_of u) = false
same (instance_of i) (handler_of r' j k) = false
same (instance_of i) (callback_of d) = false
same (training_of t) (instance_of j) = false
same (training_of t) (handler_of r' j k) = false
same (training_of t) (callback_of d) = false
same (handler_of r i h) (instance_of j) = false
same (handler_of r i h) (training_of u) = false
same (handler_of r i h) (callback_of d) = false
same (callback_of c) (instance_of j) = false
same (callback_of c) (training_of u) = false
same (callback_of c) (handler_of r' j k) = false

-- 1 for the resource itself, and 0 for any other.
unfoldable pub here : Resource → Resource → ℕ
unfolding same
here r x = if same r x then 1 else 0

unfoldable pub acquired_count : Resource → List Effect → ℕ
acquired_count r [] = 0
acquired_count r (acquired x ∷ log) = here r x + acquired_count r log
acquired_count r (released x ∷ log) = acquired_count r log
acquired_count r (reloaded i ∷ log) = acquired_count r log

unfoldable pub released_count : Resource → List Effect → ℕ
released_count r [] = 0
released_count r (acquired x ∷ log) = released_count r log
released_count r (released x ∷ log) = here r x + released_count r log
released_count r (reloaded i ∷ log) = released_count r log

abbrev pub IsLive : Resource → List Effect → Type 0
IsLive r log = released_count r log < acquired_count r log

abbrev pub IsSettled : Resource → List Effect → Type 0
IsSettled r log = acquired_count r log ≡ released_count r log

-- When an effect is in order, after the log of what was done before: an instance is new, a handler is
-- started and a plugin reloaded on a live instance, only what is live is given back, and an instance
-- only when all its handlers have been stopped.
abbrev pub IsAllowed : Effect → List Effect → Type 0
IsAllowed (acquired (instance_of i)) log = acquired_count (instance_of i) log ≡ 0
IsAllowed (acquired (training_of t)) log = Unit
IsAllowed (acquired (handler_of r i h)) log = IsLive (instance_of i) log
IsAllowed (acquired (callback_of c)) log = Unit
IsAllowed (reloaded i) log = IsLive (instance_of i) log
IsAllowed (released (instance_of i)) log =
    IsLive (instance_of i) log × ((r : Role) (h : ℕ) → IsSettled (handler_of r i h) log)
IsAllowed (released (training_of t)) log = IsLive (training_of t) log
IsAllowed (released (handler_of r i h)) log = IsLive (handler_of r i h) log
IsAllowed (released (callback_of c)) log = IsLive (callback_of c) log

-- A log in which every effect was in order.
abbrev pub IsOrderly : List Effect → Type 0
IsOrderly [] = Unit
IsOrderly (e ∷ log) = IsAllowed e log × IsOrderly log

-- A log in order whose open resources are those that `hold` counts.
pub record IsSound (w : World) (hold : Resource → ℕ) : Type 0 where
  pub balance : (r : Resource) → acquired_count r w.log ≡ released_count r w.log + hold r
  pub orderly : IsOrderly w.log
  pub fresh : (n : ℕ) → w.next ≤ n → acquired_count (instance_of n) w.log ≡ 0
  pub single : (n : ℕ) → acquired_count (instance_of n) w.log ≤ 1
