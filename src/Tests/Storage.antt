-- ===== src/Tests/Storage.antt =====
-- The chunk store at concrete inputs.
pub mod Intercom
pub mod Network
pub mod Transfers
use colony_fs.Base.{String, [], ◌∷◌, true, false, ◌≡◌, ◌≢◌, refl, ℕ_discrete, ite}
use colony_fs.Base.Int.{pos, ℤ-discrete}
use colony_fs.Base.Key.{String-discrete, ChunkKey-discrete}
use colony_fs.Base.Map.{find, insert}
use colony_fs.Base.Outcome.{ok, and_then}
use colony_fs.Storage.Metadata.{Metadata, get_key}
use colony_fs.Storage.Chunk
use colony_fs.Storage.Chunk.{Chunk}
use colony_fs.Storage.File
use colony_fs.Storage.Db
use colony_fs.Storage.Db.Lookup.{load_chunk-save_chunk}
use colony_fs.Storage.Db.Count.{
  save_all, get_num_of_chunks-save_all, top, AllCounted, save_chunk-AllCounted,
}
use colony_fs.Storage.Util.{
  Store, deposit_chunk, retrieve_chunk, representation, make_parent, read_file,
}
use colony_fs.Storage.Util.RoundTrip.{
  retrieve_chunk-deposit_chunk, retrieve_chunk-deposit_chunk_ne, deposit_chunk_unopened,
}
use colony_fs.Tests.Disk.{disk_system}

abbrev song : Metadata
song = record { uid = "song"; cuid = pos 2 }

abbrev film : Metadata
film = record { uid = "film"; cuid = pos 0 }

abbrev song_chunk : Chunk
song_chunk = record { metadata = song; bytes = 7 ∷ 8 ∷ 9 ∷ [] }

abbrev film_chunk : Chunk
film_chunk = record { metadata = film; bytes = 1 ∷ [] }

unfoldable pub new_store : Store disk_system
unfolding disk_system Db.empty File.of_uid
new_store = record {
  prefix = "data" ∷ [];
  disk = record { full = false; files = [] };
  database = Db.empty;
}

unfoldable full_store : Store disk_system
unfolding disk_system Db.empty File.of_uid
full_store = record {
  prefix = "data" ∷ [];
  disk = record { full = true; files = [] };
  database = Db.empty;
}

unfoldable film_store : Store disk_system
unfolding deposit_chunk new_store
film_store = (deposit_chunk disk_system film_chunk new_store).1

unfoldable song_store : Store disk_system
unfolding deposit_chunk film_store
song_store = (deposit_chunk disk_system song_chunk film_store).1

unfoldable lost_store : Store disk_system
unfolding deposit_chunk full_store
lost_store = (deposit_chunk disk_system film_chunk full_store).1

unfoldable film_name : String
unfolding representation new_store
film_name = representation disk_system film new_store

lost : deposit_chunk disk_system film_chunk full_store ≡ (ok tt, lost_store)
unfolding lost_store make_parent disk_system new_store full_store film_store
lost = refl

song_not_film : get_key song ≢ ("film", pos 0)
unfolding get_key
song_not_film e = cc

film_known : Db.load_chunk "film" (pos 0) film_store.database ≡ ok film_name
unfolding film_store film_name disk_system Db.empty Db.load_chunk String-discrete ℤ-discrete
    ℕ_discrete deposit_chunk make_parent new_store Db.save_chunk File.call File.assign
    File.subscript File.unspecified
film_known = refl

other_name : representation disk_system song film_store ≢ film_name
unfolding film_name film_store representation disk_system deposit_chunk make_parent new_store
other_name e = cc

get_num_of_chunks-save_all_example :
    let d = save_all ((song, "a") ∷ (film, "b") ∷ []) Db.empty in
    Db.get_num_of_chunks "song" d ≡ and_then (Db.call "song" d) (λ f. ok (top f.cuid_map))
get_num_of_chunks-save_all_example =
    get_num_of_chunks-save_all ((song, "a") ∷ (film, "b") ∷ []) "song"

empty-AllCounted : AllCounted Db.empty
unfolding Db.empty find
empty-AllCounted uid f e = cc

film_deposited : deposit_chunk disk_system film_chunk new_store ≡ (ok tt, film_store)
unfolding film_store make_parent disk_system new_store
film_deposited = refl

film_reads :
    read_file disk_system (representation disk_system film new_store) film_store.disk ≡ ok (1 ∷ [])
unfolding disk_system read_file representation film_store deposit_chunk make_parent new_store find
    String-discrete insert
film_reads = refl

nothing_opens :
    disk_system.opens
      (representation disk_system film full_store)
      (make_parent disk_system film full_store).1.disk
    ≡ false
unfolding disk_system make_parent full_store
nothing_opens = refl

deposit_chunk_unopened_example :
    (retrieve_chunk disk_system "film" (pos 0) lost_store).0
    ≡ and_then
        (read_file disk_system (representation disk_system film full_store) full_store.disk)
        (λ b. ok (Chunk.of_bytes "film" (pos 0) b))
deposit_chunk_unopened_example =
    deposit_chunk_unopened disk_system film_chunk full_store lost_store lost nothing_opens
