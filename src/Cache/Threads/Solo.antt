-- ===== src/Cache/Threads/Solo.antt =====
-- Steps of cache/cache.hpp that one thread takes while the others wait.
use colony_fs.Base.{ℕ, ◌≡◌, ◌≢◌, refl, sym, ◌∙◌, arith}
use colony_fs.Base.Key.{Key}
use colony_fs.Cache.Policy.{Policy}
use colony_fs.Cache.Threads.{Phase, Shared, Move, System, update, turn, Reach, here, next}

module _ {K T W : Type 0} ⦃o : Key K⦄ (api : Policy K T W) where
  infixr 5 ◌▸◌
  pub data Moves : Shared K T W → Phase K → Shared K T W → Phase K → Type 0 where
    done : {m : Shared K T W} {p : Phase K} → Moves m p m p
    ◌▸◌ :
        {m m' m'' : Shared K T W} {p p' p'' : Phase K}
        → Move api m p m' p'
        → Moves m' p' m'' p''
        → Moves m p m'' p''

  -- What the threads have come to when one of them has moved.
  pub record Moved (s : System api) (i : ℕ) (m : Shared K T W) (p : Phase K) : Type 0 where
    pub system : System api
    pub reach : Reach api s system
    pub shared : system.shared ≡ m
    pub phase : system.phase i ≡ p
    pub others : (j : ℕ) → i ≢ j → system.phase j ≡ s.phase j

  pub Reach-trans : (s t u : System api) → Reach api s t → Reach api t u → Reach api s u
  Reach-trans s t _ r here = r
  Reach-trans s t u r (next {t = v} q step) = next (Reach-trans s t v r q) step

  pub one_move :
      (s : System api) (i : ℕ) (p : Phase K) (m : Shared K T W) (p' : Phase K)
      → s.phase i ≡ p
      → Move api s.shared p m p'
      → Moved s i m p'
  one_move s i p m p' e mv = record {
    system = record { shared = m; phase = update api s.phase i p' };
    reach = next here (turn i (rw (sym e) at mv));
    shared = refl;
    phase = ground arith;
    others = λ j d. ground arith;
  }

  moves_from :
      (s : System api) (i : ℕ) {m₀ m : Shared K T W} {p p' : Phase K}
      → s.shared ≡ m₀
      → s.phase i ≡ p
      → Moves m₀ p m p'
      → Moved s i m p'
  moves_from s i f e done = record {
    system = s;
    reach = here;
    shared = f;
    phase = e;
    others = λ j d. refl;
  }
  moves_from s i {p = p} f e (mv ▸ rest) =
      let a = one_move s i p _ _ e (rw (sym f) at mv) in
      let b = moves_from a.system i a.shared a.phase rest in
      record {
        system = b.system;
        reach = Reach-trans s a.system b.system a.reach b.reach;
        shared = b.shared;
        phase = b.phase;
        others = λ j d. b.others j d ∙ a.others j d;
      }

  -- The moves of one thread are steps of the system.
  pub Moves-Moved :
      (s : System api) (i : ℕ) (p : Phase K) {m : Shared K T W} {p' : Phase K}
      → s.phase i ≡ p
      → Moves s.shared p m p'
      → Moved s i m p'
  Moves-Moved s i p e moves = moves_from s i refl e moves
