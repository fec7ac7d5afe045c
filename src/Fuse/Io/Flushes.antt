-- ===== src/Fuse/Io/Flushes.antt =====
-- How many flushes wait at a time.
use colony_fs.Base.{ℕ, ◌+◌, ◌≤◌, String, List, [], ◌∷◌, ◌≡◌, refl, ◌∙◌, arith, length}
use colony_fs.Base.Outcome.{Outcome, ok, raise, blocked, undefined, Action, ◌>>=◌, continue}
use colony_fs.Sink.Data.{Remote, invalidate_file, purge_file}
use colony_fs.Fuse.State.{State, in_data, invalidate_entry}
use colony_fs.Fuse.Io.{flush, execute, run_task}
use colony_fs.Fuse.Attribute.{push_back}
use colony_fs.Fuse.Update.{Attributes}

pub length-push_back : (fs : List String) (f : String) → length (push_back fs f) ≡ length fs + 1
length-push_back [] f = refl
length-push_back (x ∷ xs) f = omega (arith, length-push_back xs f)

module _ {W : Type 0} where
  -- The call adds at most `n` to the counter, and leaves the tasks alone.
  abbrev Adds : {A : Type 0} → ℕ → Action (State W) A → Type 0
  Adds n m = (s : State W) → ((m s).1.counter ≤ s.counter + n) × ((m s).1.tasks ≡ s.tasks)

  continue-Adds :
      {A B : Type 0} (r : Outcome A) (k : A → Action (State W) B) (s : State W)
      → ((a : A) → Adds 1 (k a))
      → ((continue r k s).1.counter ≤ s.counter + 1) × ((continue r k s).1.tasks ≡ s.tasks)
  continue-Adds (ok a) k s h = h a s
  continue-Adds (raise e) k s h = (omega arith, refl)
  continue-Adds blocked k s h = (omega arith, refl)
  continue-Adds undefined k s h = (omega arith, refl)

  bind-Adds :
      {A B : Type 0} (m : Action (State W) A) (k : A → Action (State W) B)
      → Adds 0 m
      → ((a : A) → Adds 1 (k a))
      → Adds 1 (m >>= k)
  bind-Adds m k h g s =
      let (r, s1) = m s in
      let (c, t) = continue-Adds r k s1 g in let (c', t') = h s in (omega (arith, c, c'), t ∙ t')

module _ {W : Type 0} (policy : Attributes W) (remote : Remote W) where
  execute-Adds : (f : String) → Adds 1 (execute policy remote f)
  unfolding execute invalidate_entry
  execute-Adds f =
      bind-Adds (invalidate_entry policy f) _ (λ s. (omega arith, refl))
        λ _.
          bind-Adds (in_data (invalidate_file remote f)) _ (λ s. (omega arith, refl))
            λ _.
              bind-Adds (in_data (purge_file remote f)) _ (λ s. (omega arith, refl))
                λ _. λ s. (omega arith, refl)

  pub data FlushOp : Type 0 where
    flushes : String → FlushOp
    runs : FlushOp

  abbrev pub step : FlushOp → State W → State W
  step (flushes f) s = (flush f s).1
  step runs s = (run_task policy remote s).1

  abbrev pub steps : List FlushOp → State W → State W
  steps [] s = s
  steps (p ∷ ps) s = steps ps (step p s)

  ran :
      (n : ℕ) (fs : List String) (s : State W)
      → s.counter + length fs ≤ n
      → s.tasks ≡ fs
      → (run_task policy remote s).1.counter + length (run_task policy remote s).1.tasks ≤ n
  unfolding run_task
  ran n [] s h e = rw e h
  ran n (f ∷ fs) s h e =
      let (c, t) = execute-Adds f (record s { tasks = fs }) in rw (e, t) (omega (arith, c))

  step-bound :
      (n : ℕ) (p : FlushOp) (s : State W)
      → s.counter + length s.tasks ≤ n
      → (step p s).counter + length (step p s).tasks ≤ n
  unfolding flush run_task
  step-bound n (flushes f) s h = ground (arith, length-push_back s.tasks f)
  step-bound n runs s h = ran n s.tasks s h refl

  -- If the flushes that may still be spawned and those that wait are at most `n` together, then
  -- after any history of flushes and of runs of their tasks, however these end, at most `n` wait.
  pub steps-bound :
      (n : ℕ) (ps : List FlushOp) (s : State W)
      → s.counter + length s.tasks ≤ n
      → length (steps ps s).tasks ≤ n
  steps-bound n [] s h = omega arith
  steps-bound n (p ∷ ps) s h = steps-bound n ps (step p s) (step-bound n p s h)
