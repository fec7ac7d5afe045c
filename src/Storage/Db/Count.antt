-- ===== src/Storage/Db/Count.antt =====
-- The counter `num_of_chunks_` against the chunks that are there.
use colony_fs.Base.{
  String, ◌≡◌, refl, some, List, [], ◌∷◌, if◌then◌else◌, arith, Option-cases, inl, inr, sym, ap,
  ◌∙◌,
}
use colony_fs.Base.Int.{ℤ, pos, int_succ, ltb_ℤ}
use colony_fs.Base.Key.{string_key, int_key}
use colony_fs.Base.Map.{Map, find, insert, place, replace, find-insert}
use colony_fs.Base.Outcome.{ok, and_then}
use colony_fs.Storage.Metadata.{Metadata}
use colony_fs.Storage.File
use colony_fs.Storage.File.{File}
use colony_fs.Storage.Db.{Db, empty, call, subscript, put_file, save_chunk, get_num_of_chunks}

unfoldable pub max_ℤ : ℤ → ℤ → ℤ
max_ℤ a b = if ltb_ℤ b a then a else b

-- One more than the greatest cuid of a map, or 0: what the counter stands for.
abbrev pub top : Map ℤ String → ℤ
top [] = pos 0
top ((c, _) ∷ m) = max_ℤ (int_succ c) (top m)

-- The counter agrees with the map.
abbrev pub IsCounted : File → Type 0
IsCounted f = f.num_of_chunks ≡ top f.cuid_map

max_left_comm : (a b c : ℤ) → max_ℤ a (max_ℤ b c) ≡ max_ℤ b (max_ℤ a c)
unfolding max_ℤ
max_left_comm a b c = ground arith

max_absorb : (a b : ℤ) → max_ℤ a (max_ℤ a b) ≡ max_ℤ a b
unfolding max_ℤ
max_absorb a b = ground arith

top-place : (k : ℤ) (r : String) (m : Map ℤ String) → top (place k r m) ≡ max_ℤ (int_succ k) (top m)
unfolding place
top-place k r [] = refl
top-place k r ((j, s) ∷ m) =
    ground (arith, top-place k r m, max_left_comm (int_succ k) (int_succ j) (top m))

top-absorbs :
    (k : ℤ) (u : String) (m : Map ℤ String) → find k m ≡ some u → max_ℤ (int_succ k) (top m) ≡ top m
unfolding find
top-absorbs k u [] e = cc
top-absorbs k u ((j, s) ∷ m) e = ground (
  arith,
  top-absorbs k u m,
  max_left_comm (int_succ k) (int_succ j) (top m),
  max_absorb (int_succ k) (top m),
)

top-replace : (k : ℤ) (r : String) (m : Map ℤ String) → top (replace k r m) ≡ top m
unfolding replace
top-replace k r [] = refl
top-replace k r ((j, s) ∷ m) = ground (arith, top-replace k r m)

top-insert :
    (k : ℤ) (r : String) (m : Map ℤ String) → top (insert k r m) ≡ max_ℤ (int_succ k) (top m)
unfolding insert
top-insert k r m = elim (Option-cases (find k m)) [
  | inl e ↦ rw (e, insert) (top-place k r m)
  | inr (u, e) ↦ rw (e, insert) (top-replace k r m ∙ sym (top-absorbs k u m e))
]

-- `subscript` makes the counter the greater of the old one and the new cuid's.
num-subscript :
    (k : ℤ) (f : File) → (File.subscript k f).num_of_chunks ≡ max_ℤ (int_succ k) f.num_of_chunks
unfolding File.subscript max_ℤ
num-subscript k f = refl

map-subscript :
    (k : ℤ) (r : String) (f : File)
    → top (insert k r (File.subscript k f).cuid_map) ≡ max_ℤ (int_succ k) (top f.cuid_map)
unfolding File.subscript
map-subscript k r f = ground (
  arith,
  top-insert k r f.cuid_map,
  top-insert k "" f.cuid_map,
  top-insert k r (insert k "" f.cuid_map),
  max_absorb (int_succ k) (top f.cuid_map),
)

slot-IsCounted :
    (k : ℤ) (r : String) (f : File) → IsCounted f → IsCounted (File.assign k r (File.subscript k f))
unfolding File.assign
slot-IsCounted k r f h = num-subscript k f ∙ ap (max_ℤ (int_succ k)) h ∙ sym (map-subscript k r f)

-- Every file of a database that is there is counted.
abbrev pub AllCounted : Db → Type 0
AllCounted d = (uid : String) (f : File) → find uid d.uid_map ≡ some f → IsCounted f

subscript-IsCounted : (uid : String) (d : Db) → AllCounted d → IsCounted (subscript uid d)
unfolding subscript File.unspecified
subscript-IsCounted uid d h = elim (Option-cases (find uid d.uid_map)) [
  | inl e ↦ rw (e, subscript) refl
  | inr (f, e) ↦ rw (e, subscript) (h uid f e)
]

-- Saving any chunk keeps the counter of every file equal to one more than the greatest cuid in its
-- map.
pub save_chunk-AllCounted :
    (m : Metadata) (r : String) (d : Db) → AllCounted d → AllCounted (save_chunk m r d)
unfolding save_chunk put_file
save_chunk-AllCounted m r d h uid f e = ground (
  arith,
  find-insert uid m.uid (File.assign m.cuid r (File.subscript m.cuid (subscript m.uid d)))
      d.uid_map,
  slot-IsCounted m.cuid r (subscript m.uid d) (subscript-IsCounted m.uid d h),
  h uid f,
)

-- What any number of `save_chunk` calls make of a new database.
pub save_all : List (Metadata × String) → Db → Db
save_all [] d = d
save_all ((m, r) ∷ saves) d = save_all saves (save_chunk m r d)

save_all-AllCounted :
    (saves : List (Metadata × String)) (d : Db) → AllCounted d → AllCounted (save_all saves d)
unfolding save_all
save_all-AllCounted [] d h = h
save_all-AllCounted ((m, r) ∷ saves) d h =
    save_all-AllCounted saves (save_chunk m r d) (save_chunk-AllCounted m r d h)

empty-AllCounted : AllCounted empty
unfolding empty find
empty-AllCounted uid f e = cc

-- After any sequence of saves into a new database, `get_num_of_chunks` of a file that is there is
-- the greatest of 0 and the successors, as ints of 32 bits that wrap, of the cuids in its map; of
-- any other file it raises `inexistent_file_e`.
pub get_num_of_chunks-save_all :
    (saves : List (Metadata × String)) (uid : String)
    → let d = save_all saves empty in
      get_num_of_chunks uid d ≡ and_then (call uid d) (λ f. ok (top f.cuid_map))
unfolding get_num_of_chunks
get_num_of_chunks-save_all saves uid =
    let d = save_all saves empty in
    elim (Option-cases (find uid d.uid_map)) [
      | inl e ↦ rw (e, call)
      | inr (f, e) ↦ rw (e, call) (ap ok (save_all-AllCounted saves empty empty-AllCounted uid f e))
    ]
