-- ===== src/Storage/FileSystem.antt =====
-- What storage/util.cpp uses of boost::filesystem, boost::lexical_cast and the standard file
-- streams: a parameter of the model, with the behaviour that is documented.
use colony_fs.Base.{ℕ, String, List, Bool, false, ◌≡◌}
use colony_fs.Base.Int.{ℤ}
use colony_fs.Base.Outcome.{Outcome, Action}

pub record FileSystem : Type 1 where
  pub Place : Type 0
  pub Disk : Type 0
  -- `path(text)`, `path.string()` and the members of `path`
  pub place : String → Place
  pub text : Place → String
  pub join : Place → Place → Place
  pub parent_path : Place → Place
  pub filename : Place → String
  pub normalize : Place → Place
  -- `lexical_cast<std::string>(int)`
  pub decimal : ℤ → String
  pub exists : Place → Disk → Bool
  pub is_directory : Place → Disk → Bool
  pub create_directories : Place → Action Disk (Unit {0})
  -- An `ofstream` that is opened on a name, written and closed. The stream fails silently: where
  -- the name does not open, nothing is written, and where it opens, the write may still fail.
  pub opens : String → Disk → Bool
  pub write_file : String → List ℕ → Disk → Disk
  pub file_size : String → Disk → Outcome ℕ
  -- `ifstream::readsome` of at most so many bytes: how many of the file's bytes it gives is left to
  -- the implementation.
  pub readsome : String → ℕ → Disk → List ℕ
  pub write_file_unopened :
      (name : String) (bytes : List ℕ) (d : Disk)
      → opens name d ≡ false
      → write_file name bytes d ≡ d
  -- To make a directory leaves the files alone.
  pub file_size-create_directories :
      (name : String) (p : Place) (d : Disk)
      → file_size name (create_directories p d).1 ≡ file_size name d
  pub readsome-create_directories :
      (name : String) (n : ℕ) (p : Place) (d : Disk)
      → readsome name n (create_directories p d).1 ≡ readsome name n d
