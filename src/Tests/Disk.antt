-- ===== src/Tests/Disk.antt =====
-- A small disk that behaves as `Storage.FileSystem` asks.
use Prim.Native.String.{◌++◌}
use mathlib.Core.List.{◌++◌ as append}
use colony_fs.Base.{
  ℕ, zero, suc, String, List, [], ◌∷◌, Bool, true, false, Option, none, some, ◌≡◌, refl, arith,
  length, take, if◌then◌else◌,
}
use colony_fs.Base.Int.{ℤ, pos, negsuc}
use colony_fs.Base.Key.{string_key}
use colony_fs.Base.Map.{Map, find, insert}
use colony_fs.Base.Outcome.{Outcome, ok, raise, filesystem_error}
use colony_fs.Storage.FileSystem.{FileSystem}

-- A full disk opens no file for writing.
pub record Disk : Type 0 where
  pub full : Bool
  pub files : Map String (List ℕ)

abbrev size_of : Option (List ℕ) → Outcome ℕ
size_of none = raise filesystem_error
size_of (some bytes) = ok (length bytes)

abbrev first_of : ℕ → Option (List ℕ) → List ℕ
first_of n none = []
first_of n (some bytes) = take n bytes

abbrev opened : String → Disk → Bool
opened name d = if d.full then false else true

unfoldable pub written : String → List ℕ → Disk → Disk
written name bytes d = if d.full then d else record d { files = insert name bytes d.files }

abbrev text_of : List String → String
text_of [] = ""
text_of (x ∷ xs) = "/" ++ (x ++ text_of xs)

abbrev parent : List String → List String
parent [] = []
parent (x ∷ []) = []
parent (x ∷ y ∷ xs) = x ∷ parent (y ∷ xs)

abbrev leaf : List String → String
leaf [] = ""
leaf (x ∷ []) = x
leaf (x ∷ y ∷ xs) = leaf (y ∷ xs)

abbrev tally : ℕ → String
tally zero = ""
tally (suc n) = "I" ++ tally n

abbrev pub decimal : ℤ → String
decimal (pos n) = tally n
decimal (negsuc n) = "-" ++ tally n

pub written_full :
    (name : String) (bytes : List ℕ) (d : Disk) → opened name d ≡ false → written name bytes d ≡ d
unfolding written
written_full name bytes d o = ground arith

unfoldable pub disk_system : FileSystem
unfolding written find
disk_system = record {
  Place = List String;
  Disk = Disk;
  place = λ s. s ∷ [];
  text = text_of;
  join = λ a b. append a b;
  parent_path = parent;
  filename = leaf;
  normalize = λ p. p;
  decimal = decimal;
  exists = λ p d. true;
  is_directory = λ p d. true;
  create_directories = λ p d. (ok tt, d);
  opens = opened;
  write_file = written;
  file_size = λ name d. size_of (find name d.files);
  readsome = λ name n d. first_of n (find name d.files);
  write_file_unopened = written_full;
  file_size-create_directories = λ name p d. refl;
  readsome-create_directories = λ name n p d. refl;
}
