-- ===== src/Platform/Spi/Simple.antt =====
-- A mutex and a semaphore, to run the driver of the SPI with: the thread that holds the mutex with
-- how many times more than once, and the count, which is at most 1.
use mymouse.Base.{
  ℕ, zero, suc, ◌≡◌, ◌≢◌, ◌<◌, ◌-◌, refl, Option, none, some, Errno, eagain, eperm, ◌==◌,
  if◌then◌else◌, arith,
}
use mymouse.Platform.Spi.{Kernel}
use mymouse.Platform.Spi.Lock.{IsMutex, IsSem}

abbrev lock : ℕ → ℕ → Option (ℕ × ℕ) → Option (ℕ × ℕ) × Option Errno
lock t timeout none = (some (t, 0), none)
lock t timeout (some (u, n)) =
    if u == t then (some (u, suc n), none) else (some (u, n), some eagain)

abbrev less : ℕ → ℕ → Option (ℕ × ℕ)
less u zero = none
less u (suc n) = some (u, n)

abbrev unlock : ℕ → Option (ℕ × ℕ) → Option (ℕ × ℕ) × Option Errno
unlock t none = (none, some eperm)
unlock t (some (u, n)) = if u == t then (less u n, none) else (some (u, n), some eperm)

abbrev owner : Option (ℕ × ℕ) → Option ℕ
owner none = none
owner (some (u, n)) = some u

abbrev take : ℕ → Option ℕ
take zero = none
take (suc n) = some n

abbrev pub simple : Kernel
simple = record {
  Mutex = Option (ℕ × ℕ);
  Sem = ℕ;
  lock = lock;
  unlock = unlock;
  owner = owner;
  give = λ n. 1;
  take = take;
}

abbrev holds : ℕ → Option (ℕ × ℕ) → ℕ
holds t none = 0
holds t (some (u, n)) = if u == t then suc n else 0

holds-less : (t n : ℕ) → holds t (less t n) ≡ n
holds-less t zero = refl
holds-less t (suc n) = ground arith

holds_owner : (t : ℕ) (m : Option (ℕ × ℕ)) → 0 < holds t m → owner m ≡ some t
holds_owner t none p = absurd (omega arith)
holds_owner t (some (u, n)) p = ground (arith, p)

lock_ok :
    (t d : ℕ) (m : Option (ℕ × ℕ))
    → (lock t d m).1 ≡ none
    → holds t (lock t d m).0 ≡ suc (holds t m)
lock_ok t d none p = ground arith
lock_ok t d (some (u, n)) p = ground (arith, p)

lock_fails :
    (t d : ℕ) (m : Option (ℕ × ℕ)) → (lock t d m).1 ≢ none → holds t (lock t d m).0 ≡ holds t m
lock_fails t d none p = absurd (p refl)
lock_fails t d (some (u, n)) p = ground (arith, p)

unlock_holds : (t : ℕ) (m : Option (ℕ × ℕ)) → holds t (unlock t m).0 ≡ holds t m - 1
unlock_holds t none = refl
unlock_holds t (some (u, n)) = ground (arith, holds-less t n)

pub simple-IsMutex : IsMutex simple
simple-IsMutex = record {
  holds = holds;
  holds_owner = holds_owner;
  lock_ok = lock_ok;
  lock_fails = lock_fails;
  unlock_holds = unlock_holds;
}

pub simple-not_held : (t : ℕ) → simple-IsMutex.holds t none ≡ 0
unfolding simple-IsMutex
simple-not_held t = refl

taken : (s : ℕ) → simple.take s ≡ none → simple.take (simple.give s) ≡ some s
taken zero e = refl
taken (suc n) e = ground (arith, e)

pub simple-IsSem : IsSem simple
simple-IsSem = record { taken = taken }
