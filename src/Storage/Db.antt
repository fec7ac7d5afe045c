-- ===== src/Storage/Db.antt =====
-- storage/db.*: the chunks of every file, by the file's uid.
pub mod Lookup
pub mod Count
use colony_fs.Base.{String, Option, none, some, [], ite}
use colony_fs.Base.Int.{ℤ}
use colony_fs.Base.Key.{string_key}
use colony_fs.Base.Map.{Map, find, insert}
use colony_fs.Base.Outcome.{Outcome, ok, raise, inexistent_file_e, and_then}
use colony_fs.Storage.Metadata.{Metadata}
use colony_fs.Storage.File
use colony_fs.Storage.File.{File}

pub record Db : Type 0 where
  pub uid_map : Map String File
  pub file : File

unfoldable pub empty : Db
unfolding File.of_uid
empty = record { uid_map = []; file = File.of_uid "UNSPECIFIED" }

abbrev or_inexistent : Option File → Outcome File
or_inexistent none = raise inexistent_file_e
or_inexistent (some f) = ok f

-- `operator()`
unfoldable pub call : String → Db → Outcome File
unfolding find
call uid d = or_inexistent (find uid d.uid_map)

abbrev or_unspecified : Option File → File
or_unspecified none = File.unspecified
or_unspecified (some f) = f

-- `operator[]`: the file that the reference denotes. The entry exists once `put_file` has written
-- the file back, changed or not.
unfoldable pub subscript : String → Db → File
unfolding find
subscript uid d = or_unspecified (find uid d.uid_map)

unfoldable pub put_file : String → File → Db → Db
unfolding insert
put_file uid f d = record d { uid_map = insert uid f d.uid_map }

-- `(*this)[metadata.uid_][metadata.cuid_] = representation`
unfoldable pub save_chunk : Metadata → String → Db → Db
unfolding subscript put_file
save_chunk m representation d =
    put_file m.uid (File.assign m.cuid representation (File.subscript m.cuid (subscript m.uid d))) d

unfoldable pub load_chunk : String → ℤ → Db → Outcome String
unfolding call
load_chunk uid cuid d = and_then (call uid d) (File.call cuid)

-- The overload that takes the name as one object.
unfoldable pub load_chunk_of : Metadata → Db → Outcome String
unfolding call
load_chunk_of m d = and_then (call m.uid d) (File.call m.cuid)

unfoldable pub get_num_of_chunks : String → Db → Outcome ℤ
unfolding call File.get_num_of_chunks
get_num_of_chunks uid d = and_then (call uid d) (λ f. ok (File.get_num_of_chunks f))
