-- ===== src/Tests/Cache.antt =====
-- A cache of notes, kept in a table under names that are not the caller's keys.
use Prim.Native.String.{◌++◌}
use colony_fs.Base.{ℕ, String, Option, none, some, [], ◌∷◌, ◌≡◌, ◌≢◌, refl, ite, ℕ_discrete}
use colony_fs.Base.Key.{string_key, String-discrete}
use colony_fs.Base.Map.{Map, find, insert, place, replace}
use colony_fs.Base.Outcome.{Outcome, ok, raise, blocked, pure, modify, lookup_e, and_then, continue}
use colony_fs.Cache.Basic
use colony_fs.Cache.Basic.{Cache, empty}
use colony_fs.Cache.Policy.{Policy}
use colony_fs.Cache.Front.{call, subscript, purge, invalidate, invalidate_all, entry_key}
use colony_fs.Cache.Sound.{IsSound}
use colony_fs.Cache.Sound.Misses.{KeepsKey}
use colony_fs.Cache.Sound.History.{run, subscripts, calls, purges, invalidates_all, run-IsSound}
use colony_fs.Cache.View.{view, or_else}
use colony_fs.Cache.View.Subscript.{view-subscript}
use colony_fs.Cache.View.Call.{call-miss_first, call-purge-call, value_of}
use colony_fs.Cache.View.Flush.{invalidate-dirty, invalidate_all_lem, flush_values, values}

record Note : Type 0 where
  name : String
  text : ℕ

abbrev new_note : String → Note
new_note key = record { name = "note:" ++ key; text = 0 }

abbrev filled : Note → Option ℕ → Outcome Note
filled v none = raise lookup_e
filled v (some n) = ok (record { name = v.name; text = n })

unfoldable notes : Policy String Note (Map String ℕ)
unfolding find insert
notes = record {
  new_pointer = new_note;
  get_key = λ v. v.name;
  pre_read = λ v w. (filled v (find v.name w), w);
  on_flush = λ v. modify (insert v.name v.text);
  on_erase = λ v. pure tt;
  on_done = pure tt;
}

filled-name : (v v' : Note) (o : Option ℕ) → filled v o ≡ ok v' → v'.name ≡ v.name
filled-name v v' none e = cc
filled-name v v' (some n) e = let p : record { name = v.name; text = n } ≡ v' = cc in cc

notes-KeepsKey : KeepsKey notes
unfolding notes
notes-KeepsKey v v' w e = filled-name v v' (find v.name w) e

abbrev table : Map String ℕ
table = ("note:a", 5) ∷ ("note:b", 6) ∷ []

-- One entry, "note:a", which is dirty.
unfoldable one : Cache String Note (Map String ℕ)
unfolding subscript empty
one = run notes (subscripts "a" ∷ []) (empty table)

unfoldable none_yet : Cache String Note (Map String ℕ)
unfolding empty
none_yet = empty table

one-IsSound : IsSound notes one
unfolding one
one-IsSound = run-IsSound notes (subscripts "a" ∷ []) table notes-KeepsKey

none_yet-IsSound : IsSound notes none_yet
unfolding none_yet
none_yet-IsSound = run-IsSound notes [] table notes-KeepsKey

run-IsSound_example :
    IsSound notes
      (run notes (subscripts "a" ∷ calls "b" ∷ purges "a" ∷ invalidates_all ∷ []) (empty table))
run-IsSound_example =
    run-IsSound notes (subscripts "a" ∷ calls "b" ∷ purges "a" ∷ invalidates_all ∷ []) table
      notes-KeepsKey

view-subscript_example :
    let k = entry_key notes "b" in
    view (subscript notes "b" one).1 "note:a"
    ≡ ite
        (string_key.eq k "note:a")
        (some (or_else (notes.new_pointer "b") (view one k)))
        (view one "note:a")
view-subscript_example = view-subscript notes "b" "note:a" one one-IsSound

one_hit : find (entry_key notes "a") one.whole ≡ some 0
unfolding notes one String-discrete find insert place subscript empty Basic.insert ℕ_discrete
one_hit = refl

b_missing : find (entry_key notes "b") one.whole ≡ none
unfolding notes one String-discrete find insert place subscript empty Basic.insert ℕ_discrete
b_missing = refl

b_free : find (entry_key notes "b") one.locked ≡ none
unfolding notes one String-discrete find insert place subscript empty Basic.insert ℕ_discrete
b_free = refl

call-miss_first_example :
    let (x, w) = notes.pre_read (notes.new_pointer "b") one.world in
    let (r, d) = call notes "b" one in
    (r ≡ and_then x (λ _. ok one.next))
    × (d.world ≡ w)
    × (view d "note:b"
        ≡ ite (string_key.eq (entry_key notes "b") "note:b") (value_of notes x) (view one "note:b"))
call-miss_first_example =
    call-miss_first notes "b" "note:b" one one-IsSound notes-KeepsKey b_missing b_free

unfoldable with_b : Cache String Note (Map String ℕ)
unfolding call
with_b = (call notes "b" one).1

b_called : call notes "b" one ≡ (ok 1, with_b)
unfolding with_b notes one String-discrete find insert place subscript empty Basic.insert ℕ_discrete
b_called = refl

abbrev note_b : Note
note_b = record { name = "note:b"; text = 6 }

b_still_there :
    (notes.pre_read (notes.new_pointer "b") (purge notes "b" with_b).1.world).0 ≡ ok note_b
unfolding with_b notes one String-discrete find insert place subscript empty Basic.insert ℕ_discrete
    call purge
b_still_there = refl

call-purge-call_example : (call notes "b" (purge notes "b" with_b).1).0 ≡ blocked
call-purge-call_example =
    call-purge-call notes "b" 1 note_b one with_b one-IsSound notes-KeepsKey b_missing b_called
      b_still_there

a_dirty : find (entry_key notes "a") one.dirty ≢ none
unfolding notes one String-discrete find insert place subscript empty Basic.insert ℕ_discrete
a_dirty e = cc

a_value : view one (entry_key notes "a") ≡ some (new_note "a")
unfolding notes one String-discrete find insert place subscript empty Basic.insert ℕ_discrete
a_value = refl

abbrev flushed_table : Map String ℕ
flushed_table = ("note:a", 0) ∷ ("note:b", 6) ∷ []

a_flushed : notes.on_flush (new_note "a") one.world ≡ (ok tt, flushed_table)
unfolding notes one String-discrete find insert place replace subscript empty Basic.insert
    ℕ_discrete
a_flushed = refl

-- The entry is flushed under the caller's key, and stays dirty under its own.
invalidate-dirty_example :
    let (r, d) = invalidate notes "a" one in
    (r ≡ ok tt)
    × (d.world ≡ flushed_table)
    × (view d "note:a" ≡ view one "note:a")
    × (find "note:a" d.dirty ≡ ite (string_key.eq "a" "note:a") none (find "note:a" one.dirty))
invalidate-dirty_example =
    invalidate-dirty notes "a" "note:a" (new_note "a") flushed_table one one-IsSound a_dirty a_value
      a_flushed

b_clean : find (entry_key notes "b") one.dirty ≡ none
unfolding notes one String-discrete find insert place subscript empty Basic.insert ℕ_discrete
b_clean = refl

invalidate_all_lem_example : invalidate_all notes one ≡ (
    let (r, w) = flush_values notes (values notes one.dirty one.cell) one.world in
    continue r
      (λ _ d. let (r', w') = notes.on_done d.world in (r', record d { dirty = []; world = w' }))
      (record one { world = w }))
invalidate_all_lem_example = invalidate_all_lem notes one one-IsSound
