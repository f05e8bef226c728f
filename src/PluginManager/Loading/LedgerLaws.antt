-- ===== src/PluginManager/Loading/LedgerLaws.antt =====
-- pluginmanager/pluginmanager.go, the ledger over each single effect.
use mod_sec_intl_wace_lib.Base.{arith, if◌then◌else◌, refl, ℕ, ◌+◌, ◌<◌, ◌==◌, ◌≡◌, ◌≤◌}
use mod_sec_intl_wace_lib.PluginManager.Process.{Handle}
use mod_sec_intl_wace_lib.PluginManager.Loading.World.{
  Resource, Role, World, acquired, callback_of, emit, give_back, handler_of, inputs, instance_of,
  make, released, reloaded, results, training_of,
}
use mod_sec_intl_wace_lib.PluginManager.Loading.Ledger.{
  IsAllowed, IsLive, IsSound, acquired_count, here, released_count,
}

pub here_self : (r : Resource) → here r r ≡ 1
unfolding here
here_self (instance_of i) = ground arith
here_self (training_of t) = ground arith
here_self (handler_of inputs i h) = ground arith
here_self (handler_of results i h) = ground arith
here_self (callback_of c) = ground arith

here-instance_of : (i j : ℕ) → here (instance_of i) (instance_of j) ≡ (if i == j then 1 else 0)
unfolding here
here-instance_of i j = refl

-- Only the instance of a handler can be in order where the handler is.
pub here-handler_of :
    (r r' : Role) (i j h k : ℕ)
    → here (handler_of r i h) (handler_of r' j k) ≤ here (instance_of i) (instance_of j)
unfolding here
here-handler_of r r' i j h k = ground arith

-- Effects that are in order and that make no instance.
module _ (w : World) (hold hold' : Resource → ℕ) (s : IsSound w hold) where
  make-IsSound :
      (x : ℕ → Resource)
      → IsAllowed (acquired (x w.next)) w.log
      → ((n : ℕ) → here (instance_of n) (x w.next) ≡ 0)
      → ((r : Resource) → hold' r ≡ here r (x w.next) + hold r)
      → IsSound (make x w).0 hold'
  unfolding make acquired_count released_count
  make-IsSound x allowed other h = record {
    balance = λ r. omega (arith, s.balance r, h r);
    orderly = (allowed, s.orderly);
    fresh = λ n le. omega (arith, s.fresh n, other n);
    single = λ n. omega (arith, s.single n, other n);
  }

  give_back-IsSound :
      (x : Resource)
      → IsAllowed (released x) w.log
      → ((r : Resource) → hold r ≡ here r x + hold' r)
      → IsSound (give_back x w) hold'
  unfolding give_back emit acquired_count released_count
  give_back-IsSound x allowed h = record {
    balance = λ r. omega (arith, s.balance r, h r);
    orderly = (allowed, s.orderly);
    fresh = s.fresh;
    single = s.single;
  }

  -- What is held is live.
  pub IsLive-hold : (r : Resource) → 0 < hold r → IsLive r w.log
  IsLive-hold r h = omega (arith, s.balance r)

  pub make-instance_of-IsSound :
      ((r : Resource) → hold' r ≡ here r (instance_of w.next) + hold r)
      → IsSound (make instance_of w).0 hold'
  unfolding make acquired_count released_count
  make-instance_of-IsSound h = record {
    balance = λ r. omega (arith, s.balance r, h r);
    orderly = (s.fresh w.next (omega arith), s.orderly);
    fresh = λ n le. ground (arith, s.fresh n, here-instance_of n w.next);
    single = λ n. ground (arith, s.fresh n, s.single n, here-instance_of n w.next);
  }

  pub make-training_of-IsSound :
      ((r : Resource) → hold' r ≡ here r (training_of w.next) + hold r)
      → IsSound (make training_of w).0 hold'
  unfolding here
  make-training_of-IsSound h = make-IsSound training_of tt (λ n. refl) h

  pub make-callback_of-IsSound :
      ((r : Resource) → hold' r ≡ here r (callback_of w.next) + hold r)
      → IsSound (make callback_of w).0 hold'
  unfolding here
  make-callback_of-IsSound h = make-IsSound callback_of tt (λ n. refl) h

  pub make-handler_of-IsSound :
      (role : Role) (i : Handle)
      → 0 < hold (instance_of i)
      → ((r : Resource) → hold' r ≡ here r (handler_of role i w.next) + hold r)
      → IsSound (make (handler_of role i) w).0 hold'
  unfolding here
  make-handler_of-IsSound role i live h =
      make-IsSound (handler_of role i) (IsLive-hold (instance_of i) live) (λ n. refl) h

  pub give_back-training_of-IsSound :
      (t : ℕ)
      → ((r : Resource) → hold r ≡ here r (training_of t) + hold' r)
      → IsSound (give_back (training_of t) w) hold'
  give_back-training_of-IsSound t h =
      give_back-IsSound (training_of t)
        (IsLive-hold (training_of t) (omega (arith, h (training_of t), here_self (training_of t))))
        h

  pub give_back-callback_of-IsSound :
      (c : ℕ)
      → ((r : Resource) → hold r ≡ here r (callback_of c) + hold' r)
      → IsSound (give_back (callback_of c) w) hold'
  give_back-callback_of-IsSound c h =
      give_back-IsSound (callback_of c)
        (IsLive-hold (callback_of c) (omega (arith, h (callback_of c), here_self (callback_of c))))
        h

  pub give_back-handler_of-IsSound :
      (role : Role) (i : Handle) (n : ℕ)
      → ((r : Resource) → hold r ≡ here r (handler_of role i n) + hold' r)
      → IsSound (give_back (handler_of role i n) w) hold'
  give_back-handler_of-IsSound role i n h =
      give_back-IsSound (handler_of role i n)
        (IsLive-hold (handler_of role i n)
          (omega (arith, h (handler_of role i n), here_self (handler_of role i n))))
        h

  -- An instance is cleaned when nothing that is held listens for it.
  pub give_back-instance_of-IsSound :
      (i : Handle)
      → ((role : Role) (n : ℕ) → hold (handler_of role i n) ≡ 0)
      → ((r : Resource) → hold r ≡ here r (instance_of i) + hold' r)
      → IsSound (give_back (instance_of i) w) hold'
  give_back-instance_of-IsSound i quiet h =
      give_back-IsSound (instance_of i)
        (
          IsLive-hold (instance_of i) (omega (arith, h (instance_of i), here_self (instance_of i))),
          λ role n. omega (arith, s.balance (handler_of role i n), quiet role n),
        )
        h

  pub reloaded-IsSound :
      (i : Handle)
      → 0 < hold (instance_of i)
      → ((r : Resource) → hold r ≡ hold' r)
      → IsSound (emit (reloaded i) w) hold'
  unfolding emit acquired_count released_count
  reloaded-IsSound i live h = record {
    balance = λ r. omega (arith, s.balance r, h r);
    orderly = (IsLive-hold (instance_of i) live, s.orderly);
    fresh = s.fresh;
    single = s.single;
  }

  pub IsSound-eq : ((r : Resource) → hold r ≡ hold' r) → IsSound w hold'
  IsSound-eq h = record {
    balance = λ r. omega (arith, s.balance r, h r);
    orderly = s.orderly;
    fresh = s.fresh;
    single = s.single;
  }
