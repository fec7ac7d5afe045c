-- ===== src/Cache/View.antt =====
-- A cache seen as a map from keys to values, and what each operation of cache/cache.hpp makes of
-- that map.
pub mod Subscript
pub mod Call
pub mod Flush
pub mod Edit
pub mod Pointers
use colony_fs.Base.{
  ℕ, ◌<◌, ◌≡◌, ◌≢◌, refl, sym, Option, none, some, List, [], ◌∷◌, arith, ite, inl, inr,
  Option-cases, ◌∙◌, ℕ_discrete,
}
use colony_fs.Base.Key.{Key}
use colony_fs.Base.Map.{Map, find, insert as map_insert, find-insert, find-erase}
use colony_fs.Base.Outcome.{Outcome, ok, raise, blocked, undefined, Action}
use colony_fs.Cache.Heap.{Heap, put, free, release, allocate}
use colony_fs.Cache.Basic
use colony_fs.Cache.Basic.{Cache, or_miss}
use colony_fs.Cache.Policy.{Policy}
use colony_fs.Cache.Front.{
  entry_key, new_object, load, store, edit, mark, subscript, purge, call, catch_miss,
}
use colony_fs.Cache.Sound.{IsSound, new_object-IsSound}

-- The object that a pointer denotes, if there is one.
abbrev pub deref : {T : Type 0} → (ℕ → Option T) → Option ℕ → Option T
deref cell none = none
deref cell (some q) = cell q

abbrev pub or_else : {T : Type 0} → T → Option T → T
or_else v none = v
or_else v (some u) = u

module _ {K T W : Type 0} ⦃o : Key K⦄ where
  abbrev pub view : Cache K T W → K → Option T
  view c k = deref c.cell (find k c.whole)

module _ {K T W : Type 0} ⦃o : Key K⦄ (api : Policy K T W) where
  open api use {new_pointer, get_key}

  pub view-new_object :
      (key j : K) (c : Cache K T W) → IsSound api c → view (new_object api key c).1 j ≡ view c j
  unfolding new_object
  view-new_object key j c s = elim (Option-cases (find j c.whole)) [
    | inl e ↦ rw e
    | inr (q, e) ↦ let (v, f, g) = s.live j q e in rw (e, deref) (ground (arith, s.fresh q v))
  ]

  pub view-insert :
      (k j : K) (r : ℕ) (v : T) (c : Cache K T W)
      → find k c.whole ≡ none
      → c.cell r ≡ some v
      → view (Basic.insert k r c) j ≡ ite (o.eq k j) (some v) (view c j)
  unfolding Basic.insert
  view-insert k j r v c absent e = rw (absent, release) (ground (arith, find-insert j k r c.whole))

  pub view-erase :
      (k j : K) (c : Cache K T W)
      → IsSound api c
      → view (Basic.erase k c) j ≡ ite (o.eq k j) none (view c j)
  unfolding Basic.erase free
  view-erase k j c s = elim (Option-cases (find k c.whole)) [
    | inl e ↦ rw (e, release) (ground (arith, find-erase j k c.whole))
    | inr (r, e) ↦
        rw (e, release)
          (elim (Option-cases (find j c.whole)) [
            | inl f ↦ ground (arith, find-erase j k c.whole)
            | inr (q, f) ↦
                let (v, fv, gv) = s.live j q f in
                let (u, fu, gu) = s.live k r e in ground (arith, find-erase j k c.whole)
          ])
  ]
