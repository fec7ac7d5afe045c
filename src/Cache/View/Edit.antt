-- ===== src/Cache/View/Edit.antt =====
-- A write through a pointer to an entry, on the map that a cache is.
use colony_fs.Base.{ℕ, ◌≡◌, refl, some, arith, ite, inl, inr, Option-cases}
use colony_fs.Base.Key.{Key}
use colony_fs.Base.Map.{find}
use colony_fs.Base.Outcome.{ok}
use colony_fs.Cache.Heap.{put}
use colony_fs.Cache.Basic.{Cache}
use colony_fs.Cache.Policy.{Policy}
use colony_fs.Cache.Front.{load, store, edit}
use colony_fs.Cache.Sound.{IsSound}
use colony_fs.Cache.View.{view}

module _ {K T W : Type 0} ⦃o : Key K⦄ (api : Policy K T W) where
  pub edit_lem :
      (q : ℕ) (f : T → T) (v : T) (c : Cache K T W)
      → c.cell q ≡ some v
      → edit q f c ≡ (ok tt, record c { heap = put q (f v) c.heap })
  unfolding edit
  edit_lem q f v c e = rw (e, load) (rw (e, store) refl)

  -- Only the entry whose object is written changes.
  pub view-edit :
      (k j : K) (q : ℕ) (f : T → T) (v : T) (c : Cache K T W)
      → IsSound api c
      → find k c.whole ≡ some q
      → c.cell q ≡ some v
      → view (edit q f c).1 j ≡ ite (o.eq k j) (some (f v)) (view c j)
  unfolding put
  view-edit k j q f v c s e g = rw (edit_lem q f v c g) (elim (Option-cases (find j c.whole)) [
    | inl absent ↦ ground arith
    | inr (r, there) ↦
        let (u, a, b) = s.live j r there in let (u', a', b') = s.live k q e in ground arith
  ])
