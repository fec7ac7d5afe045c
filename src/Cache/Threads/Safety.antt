-- ===== src/Cache/Threads/Safety.antt =====
-- What holds of cache/cache.hpp however the steps of its threads are interleaved.
use colony_fs.Base.{ℕ, ◌≡◌, refl, sym, ◌∙◌, some, ite, ℕ_discrete}
use colony_fs.Base.Key.{Key}
use colony_fs.Cache.Heap.{release}
use colony_fs.Cache.Basic
use colony_fs.Cache.Policy.{Policy}
use colony_fs.Cache.Front.{entry_key}
use colony_fs.Cache.Sound.Misses.{KeepsKey}
use colony_fs.Cache.Sound.History.{empty-IsSound}
use colony_fs.Cache.Threads.{Phase, System, Step, turn, Reach, here, next, start}
use colony_fs.Cache.Threads.Invariant.{missing, object, Apart, Good, Inv}
use colony_fs.Cache.Threads.Invariant.Others.{missing-inside, Good-kept}
use colony_fs.Cache.Threads.Invariant.Mover.{Move-IsSound}
use colony_fs.Cache.Threads.Invariant.After.{Move-Good, Move-Apart}

Apart-sym : {K : Type 0} (p q : Phase K) → Apart p q → Apart q p
Apart-sym p q a = record { keys = λ k e f. a.keys k f e; objects = λ r e f. a.objects r f e }

module _ {K T W : Type 0} ⦃o : Key K⦄ (api : Policy K T W)
    (injective : (j k : K) → entry_key api j ≡ entry_key api k → j ≡ k) (keeps : KeepsKey api) where
  open api use {get_key}

  Step-Inv : (s t : System api) → Inv api s → Step api s t → Inv api t
  Step-Inv s t v (turn i {m} {p} mv) = record {
    sound = Move-IsSound api injective keeps v.sound mv (v.good i);
    good = λ j. elim (ℕ_discrete i j) as (λ d. Good api m (ite d p (s.phase j))) [
      | yes same ↦ Move-Good api keeps v.sound mv (v.good i)
      | no other ↦
          Good-kept api injective keeps v.sound (s.phase j) mv (v.good i) (v.apart i j other)
            (v.good j)
    ];
    apart = λ a b d.
        elim (ℕ_discrete i a)
          as (λ x. Apart (ite x p (s.phase a)) (ite (ℕ_discrete i b) p (s.phase b))) [
            | yes x ↦ elim (ℕ_discrete i b) as (λ y. Apart p (ite y p (s.phase b))) [
              | yes y ↦ absurd (d (sym x ∙ y))
              | no y ↦ Move-Apart api keeps v.sound (s.phase b) mv (v.good b) (v.apart i b y)
            ]
            | no x ↦ elim (ℕ_discrete i b) as (λ y. Apart (s.phase a) (ite y p (s.phase b))) [
              | yes y ↦
                  Apart-sym p (s.phase a)
                    (Move-Apart api keeps v.sound (s.phase a) mv (v.good a) (v.apart i a x))
              | no y ↦ v.apart a b d
            ]
          ];
  }

  Reach-Inv : (s t : System api) → Inv api s → Reach api s t → Inv api t
  Reach-Inv s _ v here = v
  Reach-Inv s t v (next {t = u} r step) = Step-Inv u t (Reach-Inv s u v r) step

  start-Inv : (w : W) → Inv api (start api w)
  start-Inv w = record {
    sound = empty-IsSound api w;
    good = λ i. record { locks = λ k e. cc; own = λ k r e f. cc; absent = λ k e. cc };
    apart = λ i j d. record { keys = λ k e f. cc; objects = λ r e f. cc };
  }

  -- However the steps of the threads of a new cache are interleaved, a thread of `operator()` or
  -- `operator[]` that found no entry still has its object, and to insert it deletes no object: no
  -- other thread has made an entry of that key in between.
  pub Reach-insert :
      (w : W) (s : System api) (i : ℕ) (k : K) (r : ℕ)
      → Reach api (start api w) s
      → missing (s.phase i) ≡ some k
      → object (s.phase i) ≡ some r
      → (v : T) × (s.shared.cache.cell r ≡ some v)
        × ((Basic.insert (get_key v) r s.shared.cache).heap ≡ s.shared.cache.heap)
  unfolding Basic.insert
  Reach-insert w s i k r reach e f =
      let g = (Reach-Inv (start api w) s (start-Inv w) reach).good i in
      let own = g.own k r (missing-inside (s.phase i) k e) f in
      (own.value, own.live, rw (own.keyed, g.absent k e, release) refl)
