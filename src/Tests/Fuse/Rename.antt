-- ===== src/Tests/Fuse/Rename.antt =====
-- A root that lists one file, which is renamed.
use colony_fs.Base.{[], ◌∷◌, ◌≡◌, ◌≢◌, refl, ite, ℕ_discrete}
use colony_fs.Base.Key.{string_key, chunk_key, String-discrete}
use colony_fs.Base.Map.{find, insert, place}
use colony_fs.Base.Outcome.{ok}
use colony_fs.Cache.Basic.{empty}
use colony_fs.Cache.Front.{entry_key, subscript, edit}
use colony_fs.Cache.Sound.{IsSound}
use colony_fs.Cache.Sound.History.{run, run-IsSound, subscripts, writes}
use colony_fs.Dht.Values.{Value}
use colony_fs.Fuse.Attribute.{Attribute}
use colony_fs.Fuse.State.{Env, State}
use colony_fs.Fuse.Tree.{rename_file, success}
use colony_fs.Fuse.Tree.Rename.{Moves, Renamed, rename_file_lem}
use colony_fs.Fuse.Update.{over}
use colony_fs.Tests.Fuse.{local, local-IsKeyed, local-KeepsKey, alone, env, attribute_at, rooted}

abbrev paths : Env
paths = record env { filename = λ p. ite (String-discrete p "/song") "song" "songs" }

abbrev with_song : Attribute → Attribute
with_song a = record (rooted a) { list = "song" ∷ [] }

with_song-key : (v : Value Attribute) → local.get_key (over with_song v) ≡ local.get_key v
unfolding local
with_song-key v = refl

unfoldable stocked : State (Unit {0})
unfolding subscript edit empty
stocked = record {
  metadata =
      run local (subscripts "/" ∷ writes 0 (over with_song) with_song-key ∷ subscripts "/song" ∷ [])
        (empty tt);
  chunks = record { index_map = []; cache = empty tt };
  world = tt;
  counter = 10;
  tasks = [];
}

stocked-IsSound : IsSound local stocked.metadata
unfolding stocked
stocked-IsSound =
    run-IsSound local
      (subscripts "/" ∷ writes 0 (over with_song) with_song-key ∷ subscripts "/song" ∷ []) tt
      local-KeepsKey

new_name : entry_key local "/songs" ≢ entry_key local "/song"
unfolding local
new_name e = cc

outside_song : entry_key local (paths.parent_path "/song") ≢ entry_key local "/song"
unfolding local
outside_song e = cc

outside_songs : entry_key local (paths.parent_path "/songs") ≢ entry_key local "/songs"
unfolding local
outside_songs e = cc

song_there : Moves local alone 10 paths "/song" "/songs" [] (attribute_at "/song") stocked
unfolding stocked local String-discrete find insert place ℕ_discrete
song_there = record {
  sound = stocked-IsSound;
  there = refl;
  listed = refl;
  apart = new_name;
  old_apart = outside_song;
  new_apart = outside_song;
  old_outside = outside_songs;
  new_outside = outside_songs;
  erased = refl;
}

rename_file_lem_example :
    let (r, s') = rename_file local alone 10 paths "/song" "/songs" stocked in
    (r ≡ ok success)
    × Renamed local alone 10 paths "/song" "/songs" [] (attribute_at "/song") stocked s'
rename_file_lem_example =
    rename_file_lem local alone 10 paths "/song" "/songs" [] (attribute_at "/song") stocked
      local-IsKeyed song_there
