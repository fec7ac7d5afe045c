-- ===== src/Tests/Threads.antt =====
-- Threads that use one cache of notes, which is kept in a table under the callers' keys.
use colony_fs.Base.{
  ℕ, String, Option, none, some, [], ◌∷◌, ◌≡◌, refl, sym, ap, ◌∙◌, ite, ℕ_discrete, arith,
}
use colony_fs.Base.Key.{string_key, String-discrete}
use colony_fs.Base.Map.{Map, find, insert, place}
use colony_fs.Base.Outcome.{Outcome, ok, raise, pure, modify, lookup_e}
use colony_fs.Cache.Basic
use colony_fs.Cache.Basic.{Cache, empty}
use colony_fs.Cache.Policy.{Policy}
use colony_fs.Cache.Front
use colony_fs.Cache.Front.{new_object, entry_key}
use colony_fs.Cache.Sound.{IsSound}
use colony_fs.Cache.Sound.Misses.{KeepsKey}
use colony_fs.Cache.Sound.History.{run, subscripts, run-IsSound}
use colony_fs.Cache.Threads.{
  idle, broken, asks, marks, holds, Shared, with_cache, lock_new, call, miss, subscript, absent,
  created, System, Reach, start,
}
use colony_fs.Cache.Threads.Invariant.{missing, object}
use colony_fs.Cache.Threads.Solo.{Moves, done, ◌▸◌, Moved, Moves-Moved, Reach-trans}
use colony_fs.Cache.Threads.Races.{purge-holds, invalidate-write}
use colony_fs.Cache.Threads.Atomic.{calls, perform, perform-Moves}
use colony_fs.Cache.Threads.Safety.{Reach-insert}

record Note : Type 0 where
  name : String
  text : ℕ

abbrev filled : Note → Option ℕ → Outcome Note
filled v none = raise lookup_e
filled v (some n) = ok (record { name = v.name; text = n })

unfoldable plain : Policy String Note (Map String ℕ)
unfolding find insert
plain = record {
  new_pointer = λ k. record { name = k; text = 0 };
  get_key = λ v. v.name;
  pre_read = λ v w. (filled v (find v.name w), w);
  on_flush = λ v. modify (insert v.name v.text);
  on_erase = λ v. pure tt;
  on_done = pure tt;
}

plain-injective : (j k : String) → entry_key plain j ≡ entry_key plain k → j ≡ k
unfolding plain
plain-injective j k e = e

filled-name : (v v' : Note) (o : Option ℕ) → filled v o ≡ ok v' → v'.name ≡ v.name
filled-name v v' none e = cc
filled-name v v' (some n) e = let p : record { name = v.name; text = n } ≡ v' = cc in cc

plain-KeepsKey : KeepsKey plain
unfolding plain
plain-KeepsKey v v' w e = filled-name v v' (find v.name w) e

abbrev table : Map String ℕ
table = ("a", 5) ∷ ("b", 6) ∷ []

-- Thread 0 has found no entry of "a".
unfoldable alone : Shared String Note (Map String ℕ)
unfolding plain empty
alone = lock_new plain "a" (record { cache = empty table; mutexes = [] })

-- Then thread 1 has made the entry of "b".
unfoldable both : Shared String Note (Map String ℕ)
unfolding alone plain Basic.insert
both = let m = lock_new plain "b" alone in with_cache (Basic.insert "b" 1 m.cache) m

alone-Moved : Moved plain (start plain table) 0 alone (asks "a" 0)
unfolding alone empty plain find new_object
alone-Moved = Moves-Moved plain (start plain table) 0 idle refl (call "a" refl ▸ miss refl ▸ done)

both-Moved : Moved plain alone-Moved.system 1 both (marks "b" 1)
unfolding both alone empty plain insert place find String-discrete ℕ_discrete new_object
both-Moved =
    let moves : Moves plain alone idle both (marks "b" 1) =
      subscript "b" refl ▸ absent refl ▸ created (record { name = "b"; text = 0 }) refl ▸ done in
    Moves-Moved plain alone-Moved.system 1 idle (alone-Moved.others 1 (omega arith))
      (rw (sym alone-Moved.shared) at moves)

both-Reach : Reach plain (start plain table) both-Moved.system
both-Reach =
    Reach-trans plain (start plain table) alone-Moved.system both-Moved.system alone-Moved.reach
      both-Moved.reach

asking : both-Moved.system.phase 0 ≡ asks "a" 0
asking = both-Moved.others 0 (omega arith) ∙ alone-Moved.phase

Reach-insert_example :
    (v : Note) × (both-Moved.system.shared.cache.cell 0 ≡ some v)
    × ((Basic.insert v.name 0 both-Moved.system.shared.cache).heap
        ≡ both-Moved.system.shared.cache.heap)
unfolding plain
Reach-insert_example =
    Reach-insert plain plain-injective plain-KeepsKey table both-Moved.system 0 "a" 0 both-Reach
      (ap missing asking) (ap object asking)

-- One entry, "a", which is dirty.
unfoldable one : Cache String Note (Map String ℕ)
unfolding Front.subscript empty
one = run plain (subscripts "a" ∷ []) (empty table)

one-IsSound : IsSound plain one
unfolding one
one-IsSound = run-IsSound plain (subscripts "a" ∷ []) table plain-KeepsKey

abbrev unlocked : Shared String Note (Map String ℕ)
unlocked = record { cache = one; mutexes = [] }

-- Thread 0 has the pointer to the entry.
abbrev held : System plain
held = record { shared = unlocked; phase = λ i. ite (ℕ_discrete i 0) (holds 0) idle }

purge-holds_example : (t : System plain) × Reach plain held t × (t.phase 0 ≡ broken)
unfolding plain one String-discrete find insert place Front.subscript empty Basic.insert ℕ_discrete
purge-holds_example = purge-holds plain held 0 1 "a" 0 (omega arith) refl refl refl

abbrev resting : System plain
resting = record { shared = unlocked; phase = λ i. idle }

abbrev old_note : Note
old_note = record { name = "a"; text = 0 }

invalidate-write_example :
    (t : System plain) × Reach plain resting t
    × (t.phase 0 ≡ idle)
    × (t.phase 1 ≡ holds 0)
    × (t.shared.cache.cell 0 ≡ some (record { name = "a"; text = 7 }))
    × (find "a" t.shared.cache.dirty ≡ none)
    × (t.shared.cache.world ≡ insert "a" 0 table)
unfolding plain one String-discrete find insert place Front.subscript empty Basic.insert ℕ_discrete
invalidate-write_example =
    invalidate-write plain resting 0 1 "a" 0 0 old_note (insert "a" 0 table)
      (λ v. record { name = v.name; text = 7 }) (omega arith) one-IsSound refl refl refl refl refl
      refl refl refl (λ u. refl)

-- A miss: "b" is read from the table.
perform-Moves_example :
    let r = perform plain (calls "b") one in
    Moves plain unlocked idle (with_cache r.1 unlocked) (holds 1)
unfolding plain one String-discrete find insert place Front.subscript Front.call empty Basic.insert
    ℕ_discrete
perform-Moves_example =
    perform-Moves plain (calls "b") unlocked (perform plain (calls "b") one).1 (holds 1) refl refl
