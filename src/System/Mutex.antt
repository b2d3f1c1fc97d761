-- ===== src/System/Mutex.antt =====
-- The mutex operations in a state whose mutex is known.
use beagle_logic.Base.{◌≡◌, refl, true, false, arith}
use beagle_logic.System.{System, done, sleeps, mutex_lock, mutex_unlock, mutex_trylock}

abbrev pub locked : System → System
locked s = record s { dev = record s.dev { mutex = true } }

abbrev pub unlocked : System → System
unlocked s = record s { dev = record s.dev { mutex = false } }

module _ (s : System) where
  pub lock_free : s.dev.mutex ≡ false → mutex_lock s ≡ done tt (locked s)
  unfolding mutex_lock
  lock_free e = ground arith

  pub lock_taken : s.dev.mutex ≡ true → mutex_lock s ≡ sleeps s
  unfolding mutex_lock
  lock_taken e = ground arith

  pub trylock_free : s.dev.mutex ≡ false → mutex_trylock s ≡ done true (locked s)
  unfolding mutex_trylock
  trylock_free e = ground arith

  pub trylock_taken : s.dev.mutex ≡ true → mutex_trylock s ≡ done false s
  unfolding mutex_trylock
  trylock_taken e = ground arith

  pub unlock_lem : mutex_unlock s ≡ done tt (unlocked s)
  unfolding mutex_unlock
  unlock_lem = refl
