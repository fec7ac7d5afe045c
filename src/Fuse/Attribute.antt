-- ===== src/Fuse/Attribute.antt =====
-- xmlrpc/attribute.*: what the file system keeps of a file, and the bits of a mode.
use colony_fs.Base.{
  ℕ, zero, suc, ◌+◌, ◌*◌, ◌/◌, ◌%◌, ◌==◌, String, List, [], ◌∷◌, Bool, if◌then◌else◌, ite,
}
use colony_fs.Base.Int.{ℤ, pos}
use colony_fs.Base.Key.{String-discrete}

-- The fields of `struct stat` that the program writes or archives.
pub record Stat : Type 0 where
  pub st_mode : ℕ
  pub st_nlink : ℕ
  pub st_uid : ℕ
  pub st_gid : ℕ
  pub st_size : ℤ
  pub st_blksize : ℕ
  pub st_atim_sec : ℕ
  pub st_mtim_sec : ℕ
  pub st_mtim_nsec : ℕ

-- `memset(&stbuf, 0, sizeof(struct stat))`
unfoldable pub zero_stat : Stat
zero_stat = record {
  st_mode = 0;
  st_nlink = 0;
  st_uid = 0;
  st_gid = 0;
  st_size = pos 0;
  st_blksize = 0;
  st_atim_sec = 0;
  st_mtim_sec = 0;
  st_mtim_nsec = 0;
}

-- `fattribute`: `list` has the names in a directory, or the target of a link.
pub record Attribute : Type 0 where
  pub list : List String
  pub stbuf : Stat

unfoldable pub empty_attribute : Attribute
unfolding zero_stat
empty_attribute = record { list = []; stbuf = zero_stat }

abbrev pub bit_or : ℕ → ℕ → ℕ → ℕ
bit_or zero a b = 0
bit_or (suc n) a b = (if (a % 2 + b % 2) == 0 then 0 else 1) + 2 * bit_or n (a / 2) (b / 2)

-- `a | b` on a `mode_t`, which has 32 bits.
abbrev pub mode_or : ℕ → ℕ → ℕ
mode_or a b = bit_or 32 a b

abbrev pub s_ifdir : ℕ
s_ifdir = 16384

abbrev pub s_ifreg : ℕ
s_ifreg = 32768

abbrev pub s_iflnk : ℕ
s_iflnk = 40960

-- The four bits of `S_IFMT`.
abbrev pub file_type : ℕ → ℕ
file_type mode = (mode / 4096) % 16

unfoldable pub is_directory : Attribute → Bool
is_directory a = file_type a.stbuf.st_mode == 4

unfoldable pub is_link : Attribute → Bool
is_link a = file_type a.stbuf.st_mode == 10

-- `std::list::push_back` and `std::list::remove`
abbrev pub push_back : List String → String → List String
push_back [] name = name ∷ []
push_back (x ∷ xs) name = x ∷ push_back xs name

abbrev pub remove : String → List String → List String
remove name [] = []
remove name (x ∷ xs) = ite (String-discrete x name) (remove name xs) (x ∷ remove name xs)
