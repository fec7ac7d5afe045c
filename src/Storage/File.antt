-- ===== src/Storage/File.antt =====
-- storage/file.*: where the chunks of one file are kept, and how many chunks it has.
use colony_fs.Base.{String, ◌≡◌, Option, none, some, [], if◌then◌else◌, ite, arith}
use colony_fs.Base.Int.{ℤ, pos, ltb_ℤ, int_succ, ℤ-discrete}
use colony_fs.Base.Key.{int_key}
use colony_fs.Base.Map.{Map, find, insert, find-insert}
use colony_fs.Base.Outcome.{Outcome, ok, raise, inexistent_file_e}

pub record File : Type 0 where
  pub uid : String
  pub cuid_map : Map ℤ String
  pub num_of_chunks : ℤ

-- The constructors.
unfoldable pub unspecified : File
unspecified = record { uid = "UNSPECIFIED"; cuid_map = []; num_of_chunks = pos 0 }

unfoldable pub of_uid : String → File
of_uid uid = record { uid = uid; cuid_map = []; num_of_chunks = pos 0 }

unfoldable pub set_uid : String → File → File
set_uid uid f = record f { uid = uid }

unfoldable pub get_num_of_chunks : File → ℤ
get_num_of_chunks f = f.num_of_chunks

abbrev or_default : ℤ → Map ℤ String → Option String → Map ℤ String
or_default cuid m none = insert cuid "" m
or_default cuid m (some r) = m

-- `operator[]`: the file once the slot of `cuid` exists. An assignment to the slot that it returns
-- is `assign`.
unfoldable pub subscript : ℤ → File → File
unfolding find insert
subscript cuid f = record f {
  num_of_chunks = if ltb_ℤ f.num_of_chunks (int_succ cuid) then int_succ cuid else f.num_of_chunks;
  cuid_map = or_default cuid f.cuid_map (find cuid f.cuid_map);
}

unfoldable pub assign : ℤ → String → File → File
assign cuid representation f = record f { cuid_map = insert cuid representation f.cuid_map }

abbrev or_inexistent : Option String → Outcome String
or_inexistent none = raise inexistent_file_e
or_inexistent (some r) = ok r

-- `operator()`
unfoldable pub call : ℤ → File → Outcome String
call cuid f = or_inexistent (find cuid f.cuid_map)

-- A slot that was assigned reads back, and every other slot reads as before.
pub call-assign-subscript :
    (j k : ℤ) (r : String) (f : File)
    → call j (assign k r (subscript k f)) ≡ ite (ℤ-discrete k j) (ok r) (call j f)
unfolding call assign subscript
call-assign-subscript j k r f = ground (
  arith,
  find-insert j k r f.cuid_map,
  find-insert j k "" f.cuid_map,
  find-insert j k r (insert k "" f.cuid_map),
)
