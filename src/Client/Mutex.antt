-- ===== src/Client/Mutex.antt =====
-- The lock of the client library: client/mutex.go. The calls of the Locker service are parameters.
use zuul.Shared.{ℕ, Bytes, Bool, true, false, Option, none, some, ◌⊎◌, inl, inr, if◌then◌else◌}
use zuul.Server.{Response}

pub record Mutex : Type 0 where
  pub name : Bytes
  pub token : ℕ
  pub held : Bool

unfoldable pub new_mutex : Bytes → Mutex
new_mutex name = record { name = name; token = 0; held = false }

-- A failed call, ErrNotAcquired and ErrNotHeld.
pub data ClientError (F : Type 0) : Type 0 where
  call_failed : F → ClientError F
  not_acquired not_held : ClientError F

abbrev pub deadline_or : Option ℕ → ℕ
deadline_or none = 0
deadline_or (some d) = d

abbrev pub failure : {F : Type 0} → (F → Bool) → F → ClientError F
failure timed_out e = if timed_out e then not_acquired else call_failed e

-- `timed_out` is the test of a failure for a deadline that has passed.
module _ {World F : Type 0} (client : Bytes) (timed_out : F → Bool) where
  abbrev pub locked : Mutex → World × (F ⊎ Response) → World × Mutex × Option (ClientError F)
  locked m (w, inl e) = (w, m, some (failure timed_out e))
  locked m (w, inr r) =
      if r.acquired
      then (w, record m { token = r.fencing_token; held = true }, none)
      else (w, m, some not_acquired)

  unfoldable pub lock :
      (World → Bytes → Bytes → ℕ → World × (F ⊎ Response))
      → World
      → Mutex
      → Option ℕ
      → World × Mutex × Option (ClientError F)
  lock call w m deadline = locked m (call w m.name client (deadline_or deadline))

  abbrev pub tried : Mutex → World × (F ⊎ Response) → World × Mutex × (F ⊎ Bool)
  tried m (w, inl e) = (w, m, inl e)
  tried m (w, inr r) = (
    w,
    (if r.acquired then record m { token = r.fencing_token; held = true } else m),
    inr r.acquired,
  )

  unfoldable pub try_lock :
      (World → Bytes → Bytes → World × (F ⊎ Response)) → World → Mutex → World × Mutex × (F ⊎ Bool)
  try_lock call w m = tried m (call w m.name client)

  abbrev pub unlocked : Mutex → World × (F ⊎ ℕ) → World × Mutex × Option (ClientError F)
  unlocked m (w, inl e) = (w, m, some (call_failed e))
  unlocked m (w, inr r) = (w, record m { held = false }, none)

  unfoldable pub unlock :
      (World → Bytes → Bytes → ℕ → World × (F ⊎ ℕ))
      → World
      → Mutex
      → World × Mutex × Option (ClientError F)
  unlock call w m =
      if m.held then unlocked m (call w m.name client m.token) else (w, m, some not_held)
