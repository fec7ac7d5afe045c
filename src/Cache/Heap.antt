-- ===== src/Cache/Heap.antt =====
-- The objects that the shared and weak pointers of a cache denote. An object is named by a number;
-- a name is never used again.
use colony_fs.Base.{ℕ, suc, Option, none, some, ite, ℕ_discrete}

pub record Heap (T : Type 0) : Type 0 where
  pub next : ℕ
  pub cell : ℕ → Option T

module _ {T : Type 0} where
  abbrev pub update : (ℕ → Option T) → ℕ → Option T → ℕ → Option T
  update f r v q = ite (ℕ_discrete r q) v (f q)

  -- `new T(…)`; the object's name is `h.next`.
  unfoldable pub allocate : T → Heap T → Heap T
  allocate v h = record { next = suc h.next; cell = update h.cell h.next (some v) }

  unfoldable pub put : ℕ → T → Heap T → Heap T
  put r v h = record h { cell = update h.cell r (some v) }

  -- `delete`
  unfoldable pub free : ℕ → Heap T → Heap T
  free r h = record h { cell = update h.cell r none }

  -- Deletes what the last owner of an object held, if it held one.
  abbrev pub release : Option ℕ → Heap T → Heap T
  release none h = h
  release (some r) h = free r h
