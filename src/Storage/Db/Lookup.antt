-- ===== src/Storage/Db/Lookup.antt =====
-- What a saved chunk does to later loads (`db::save_chunk`, `db::load_chunk`).
use colony_fs.Base.{String, ◌≡◌, ite, arith, Option-cases, inl, inr}
use colony_fs.Base.Int.{ℤ}
use colony_fs.Base.Key.{ChunkKey-discrete, string_key}
use colony_fs.Base.Map.{find, find-insert}
use colony_fs.Base.Outcome.{ok}
use colony_fs.Storage.Metadata.{Metadata, get_key}
use colony_fs.Storage.File
use colony_fs.Storage.Db.{Db, subscript, put_file, save_chunk, load_chunk}

load_chunk-put_file :
    (uid uid' : String) (cuid : ℤ) (f : File.File) (d : Db)
    → load_chunk uid cuid (put_file uid' f d)
      ≡ ite (string_key.eq uid' uid) (File.call cuid f) (load_chunk uid cuid d)
unfolding load_chunk put_file
load_chunk-put_file uid uid' cuid f d = ground (arith, find-insert uid uid' f d.uid_map)

call-subscript :
    (uid : String) (cuid : ℤ) (d : Db) → File.call cuid (subscript uid d) ≡ load_chunk uid cuid d
unfolding load_chunk subscript File.call find File.unspecified
call-subscript uid cuid d = elim (Option-cases (find uid d.uid_map)) [
  | inl e ↦ rw (e, subscript, load_chunk)
  | inr (f, e) ↦ rw (e, subscript, load_chunk)
]

-- After a chunk is saved, a load under its own uid and cuid gives the saved representation, and a
-- load under any other uid or cuid ends as it did before, with the same result or exception.
pub load_chunk-save_chunk :
    (m : Metadata) (representation uid : String) (cuid : ℤ) (d : Db)
    → load_chunk uid cuid (save_chunk m representation d)
      ≡ ite (ChunkKey-discrete (get_key m) (uid, cuid)) (ok representation) (load_chunk uid cuid d)
unfolding save_chunk get_key
load_chunk-save_chunk m r uid cuid d = ground (
  arith,
  load_chunk-put_file uid m.uid cuid
      (File.assign m.cuid r (File.subscript m.cuid (subscript m.uid d))) d,
  File.call-assign-subscript cuid m.cuid r (subscript m.uid d),
  File.call-assign-subscript cuid m.cuid r (subscript uid d),
  call-subscript uid cuid d,
)
