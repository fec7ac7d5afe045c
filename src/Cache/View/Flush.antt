-- ===== src/Cache/View/Flush.antt =====
-- `invalidate(key)` and `invalidate()` of cache/cache.hpp: what reaches the policy, and what stays
-- dirty.
use colony_fs.Base.{
  ℕ, ◌≡◌, ◌≢◌, refl, Option, none, some, List, [], ◌∷◌, arith, ite, inl, inr, Option-cases,
}
use colony_fs.Base.Key.{Key}
use colony_fs.Base.Map.{Map, find, find-erase, Unique}
use colony_fs.Base.Outcome.{
  Outcome, ok, raise, blocked, undefined, continue, Action, ◌>>◌, pure, modify,
}
use colony_fs.Cache.Basic
use colony_fs.Cache.Basic.{Cache, or_miss}
use colony_fs.Cache.Policy.{Policy}
use colony_fs.Cache.Front.{
  entry_key, new_object, load, flush_entry, invalidate, flush_all, invalidate_all,
}
use colony_fs.Cache.Sound.{IsSound, new_object-IsSound}
use colony_fs.Cache.View.{view, view-new_object}

module _ {K T W : Type 0} ⦃o : Key K⦄ (api : Policy K T W) where
  open api use {new_pointer, get_key, on_flush, on_done}

  flush_entry-dirty :
      (key : K) (q : ℕ) (v : T) (c : Cache K T W)
      → IsSound api c
      → find (entry_key api key) c.dirty ≡ some q
      → c.cell q ≡ some v
      → let (x, w) = on_flush v c.world in
        flush_entry api key c
        ≡ continue x (λ _. modify (Basic.clear_dirty key)) (record c { world = w })
  unfolding flush_entry
  flush_entry-dirty key q v c s e f =
      rw (e, Basic.read_dirty, s.within (entry_key api key) q e, or_miss, f, load)

  -- A dirty entry is handed to the policy once, with its present value; where the policy accepts
  -- it, the call returns, no entry of the cache changes, and what leaves the dirty entries is the
  -- caller's key, which need not be the key of the entry.
  pub invalidate-dirty :
      (key j : K) (v : T) (w : W) (c : Cache K T W)
      → IsSound api c
      → find (entry_key api key) c.dirty ≢ none
      → view c (entry_key api key) ≡ some v
      → on_flush v c.world ≡ (ok tt, w)
      → let (r, d) = invalidate api key c in
        (r ≡ ok tt)
        × (d.world ≡ w)
        × (view d j ≡ view c j)
        × (find j d.dirty ≡ ite (o.eq key j) none (find j c.dirty))
  unfolding invalidate new_object Basic.clear_dirty
  invalidate-dirty key j v w c s is_dirty e flushed =
      let k = entry_key api key in
      let c' = (new_object api key c).1 in
      elim (Option-cases (find k c.dirty)) [
        | inl clean ↦ absurd (is_dirty clean)
        | inr (q, there) ↦
            let (u, f, g) = s.live k q (s.within k q there) in
            let here : c'.cell q ≡ some v = ground (arith, s.fresh q u, s.within k q there) in
            rw (flush_entry-dirty key q v c' (new_object-IsSound api key c s) there here, flushed)
              (refl, refl, view-new_object api key j c s, find-erase j key c.dirty)
      ]

  -- A clean or missing entry is not handed to the policy, and nothing changes.
  pub invalidate-clean :
      (key j : K) (c : Cache K T W)
      → IsSound api c
      → find (entry_key api key) c.dirty ≡ none
      → let (r, d) = invalidate api key c in
        (r ≡ ok tt) × (d.world ≡ c.world) × (d.dirty ≡ c.dirty) × (view d j ≡ view c j)
  unfolding invalidate new_object flush_entry
  invalidate-clean key j c s clean =
      rw (clean, Basic.read_dirty) (refl, refl, refl, view-new_object api key j c s)

  -- The values of the dirty entries, in the order of the keys.
  abbrev pub values : Map K ℕ → (ℕ → Option T) → List T
  values [] cell = []
  values ((k, q) ∷ m) cell = elim (cell q) [ none ↦ values m cell | some v ↦ v ∷ values m cell ]

  -- One value after another is handed to the policy, until one fails.
  pub flush_values : List T → Action W (Unit {0})
  flush_values [] = pure tt
  flush_values (v ∷ vs) = on_flush v >> flush_values vs

  abbrev AllLive : Map K ℕ → (ℕ → Option T) → Type 0
  AllLive [] cell = Unit {0}
  AllLive ((k, q) ∷ m) cell = ((v : T) × (cell q ≡ some v)) × AllLive m cell

  live_of_within :
      (c : Cache K T W) (m : Map K ℕ)
      → IsSound api c
      → Unique m
      → ((k : K) (q : ℕ) → find k m ≡ some q → find k c.whole ≡ some q)
      → AllLive m c.cell
  unfolding find
  live_of_within c [] s u h = tt
  live_of_within c ((k, q) ∷ m) s u h =
      let (v, e, g) = s.live k q (h k q (ground arith)) in
      ((v, e), live_of_within c m s u.1 (λ j r f. h j r (ground arith)))

  -- What follows a callback, in the cache and in its world alone.
  continue-world :
      (x : Outcome (Unit {0})) (w : W) (m : Map K ℕ) (vs : List T) (c : Cache K T W)
      → (flush_all api m (record c { world = w })
          ≡ (let (r, w') = flush_values vs w in (r, record c { world = w' })))
      → continue x (λ _. flush_all api m) (record c { world = w })
        ≡ (let (r, w') = continue x (λ _. flush_values vs) w in (r, record c { world = w' }))
  continue-world (ok tt) w m vs c ih = ih
  continue-world (raise e) w m vs c ih = refl
  continue-world blocked w m vs c ih = refl
  continue-world undefined w m vs c ih = refl

  flush_all-values :
      (m : Map K ℕ) (c : Cache K T W)
      → AllLive m c.cell
      → flush_all api m c
        ≡ (let (r, w) = flush_values (values m c.cell) c.world in (r, record c { world = w }))
  unfolding flush_all flush_values
  flush_all-values [] c l = refl
  flush_all-values ((k, q) ∷ m) c ((v, e), l) =
      let (x, w) = on_flush v c.world in
      rw (e, load, values)
        (continue-world x w m (values m c.cell) c (flush_all-values m (record c { world = w }) l))

  -- `invalidate()` hands the present value of every dirty entry to the policy, each once and in
  -- the order of the keys. No assertion about a dangling pointer fails, and the entries stay. If
  -- all are accepted nothing is dirty any more and the policy is told that this is done; if one
  -- fails, the call ends with that failure and the dirty entries are as before.
  pub invalidate_all_lem :
      (c : Cache K T W)
      → IsSound api c
      → invalidate_all api c ≡ (
          let (r, w) = flush_values (values c.dirty c.cell) c.world in
          continue r
            (λ _ d. let (r', w') = on_done d.world in (r', record d { dirty = []; world = w' }))
            (record c { world = w }))
  unfolding invalidate_all
  invalidate_all_lem c s =
      rw (flush_all-values c.dirty c (live_of_within c c.dirty s s.distinct s.within))
