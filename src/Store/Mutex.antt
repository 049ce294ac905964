-- ===== src/Store/Mutex.antt =====
-- sync.RWMutex, as lib/store.go uses it. `Lock` first announces the writer, which keeps later
-- readers and writers out, then waits until the readers are gone. An operation that has to wait is
-- `none`, or a test that is false.
use mev_boost.Common.{
  ℕ, suc, ◌-◌, ◌≡◌, Option, none, some, Bool, true, false, ◌==◌, nat_eq, if◌then◌else◌,
}
pub mod Counts
pub mod Exclusion
pub mod Guarded

pub record RwMutex : Type 0 where
  pub announced : Bool
  pub readers : ℕ

abbrev pub unlocked : RwMutex
unlocked = record { announced = false; readers = 0 }

unfoldable pub r_lock : RwMutex → Option RwMutex
r_lock x = if x.announced then none else some (record x { readers = suc x.readers })

unfoldable pub r_unlock : RwMutex → RwMutex
r_unlock x = record x { readers = x.readers - 1 }

unfoldable pub announce : RwMutex → Option RwMutex
announce x = if x.announced then none else some (record x { announced = true })

unfoldable pub no_readers : RwMutex → Bool
no_readers x = x.readers == 0

unfoldable pub unlock : RwMutex → RwMutex
unlock x = record x { announced = false }

-- What a goroutine has of a mutex.
pub data Hold : Type 0 where
  free : Hold
  waiting : Hold
  writing : Hold
  reading : Hold

-- A move of a goroutine, as the mutex sees it.
pub data LockStep (x : RwMutex) : Hold → RwMutex → Hold → Type 0 where
  stays : {h : Hold} → LockStep x h x h
  announces : {x' : RwMutex} → announce x ≡ some x' → LockStep x free x' waiting
  enters : no_readers x ≡ true → LockStep x waiting x writing
  unlocks : LockStep x writing (unlock x) free
  r_locks : {x' : RwMutex} → r_lock x ≡ some x' → LockStep x free x' reading
  r_unlocks : LockStep x reading (r_unlock x) free
