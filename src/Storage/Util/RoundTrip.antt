-- ===== src/Storage/Util/RoundTrip.antt =====
-- What a chunkserver gives back of the chunks that were deposited on it (storage/util.cpp).
use mathlib.Core.Path.{ap₂, fun_ext}
use colony_fs.Base.{
  ℕ, String, List, [], ◌∷◌, refl, sym, ap, ◌∙◌, ◌≡◌, ◌≢◌, false, inl, inr, Bool-cases, arith,
}
use colony_fs.Base.Int.{ℤ}
use colony_fs.Base.Outcome.{Outcome, ok, and_then, continue, fail, modify, ◌>>=◌}
use colony_fs.Storage.Metadata.{Metadata, get_key}
use colony_fs.Storage.Chunk
use colony_fs.Storage.Chunk.{Chunk}
use colony_fs.Storage.Db
use colony_fs.Storage.Db.{Db}
use colony_fs.Storage.Db.Lookup.{load_chunk-save_chunk}
use colony_fs.Storage.FileSystem.{FileSystem}
use colony_fs.Storage.Util.{
  Store, filepath, representation, make_parent, deposit_chunk, all_read, read_file, retrieve_chunk,
  with_front,
}

module _ (fs : FileSystem) where
  open fs use {opens, write_file, file_size, readsome}

  -- The state that a deposit which ends well leaves.
  abbrev pub deposited : Chunk → Store fs → Store fs
  deposited c s = record s {
    disk = write_file (representation fs c.metadata s) c.bytes (make_parent fs c.metadata s).1.disk;
    database = Db.save_chunk c.metadata (representation fs c.metadata s) s.database;
  }

  -- What a deposit does once there is a directory, if it ends well.
  recorded :
      (bytes : List ℕ) (r : Outcome (Unit {0}) × Store fs) (f : List ℕ → Store fs → Store fs)
      (s' : Store fs)
      → continue r.0 (λ _. fail (with_front bytes) >>= (λ b. modify (f b))) r.1 ≡ (ok tt, s')
      → s' ≡ f bytes r.1
  recorded (b ∷ bs) (ok tt, t) f s' e = ap (λ (x : Outcome (Unit {0}) × Store fs). x.1) (sym e)
  recorded [] (ok tt, t) f s' e = let q = ap (λ (x : Outcome (Unit {0}) × Store fs). x.0) e in cc
  recorded bytes (r, t) f s' e = let q = ap (λ (x : Outcome (Unit {0}) × Store fs). x.0) e in cc

  pub deposit_chunk-deposited :
      (c : Chunk) (s s' : Store fs) → deposit_chunk fs c s ≡ (ok tt, s') → s' ≡ deposited c s
  unfolding deposit_chunk
  deposit_chunk-deposited c s s' h =
      let save = λ (b : List ℕ) (t : Store fs). record t {
        disk = write_file (representation fs c.metadata t) b t.disk;
        database = Db.save_chunk c.metadata (representation fs c.metadata t) t.database;
      } in
      recorded c.bytes (make_parent fs c.metadata s) save s' h
      ∙ elim (Bool-cases (fs.exists (fs.parent_path (filepath fs c.metadata s)) s.disk)) [
        | inl e ↦ rw (e, make_parent) refl
        | inr e ↦ rw (e, make_parent) refl
      ]

  -- What a retrieval answers, as a function of the index and the disk.
  abbrev pub answer : String → ℤ → Db → fs.Disk → Outcome Chunk
  answer uid cuid database disk =
      and_then (Db.load_chunk uid cuid database)
        (λ name. and_then (read_file fs name disk) (λ b. ok (Chunk.of_bytes uid cuid b)))

  pub retrieve_chunk-answer :
      (uid : String) (cuid : ℤ) (s : Store fs)
      → retrieve_chunk fs uid cuid s ≡ (answer uid cuid s.database s.disk, s)
  unfolding retrieve_chunk
  retrieve_chunk-answer uid cuid s = ground arith

  -- A chunk that was deposited is retrieved with its own name and bytes: if `deposit_chunk` ends
  -- without an exception, and the chunk's file is then read whole with the chunk's bytes, then
  -- `retrieve_chunk` by its uid and cuid gives it back, and changes nothing.
  pub retrieve_chunk-deposit_chunk :
      (c : Chunk) (s s' : Store fs)
      → deposit_chunk fs c s ≡ (ok tt, s')
      → read_file fs (representation fs c.metadata s) s'.disk ≡ ok c.bytes
      → retrieve_chunk fs c.uid c.cuid s' ≡ (ok c, s')
  unfolding get_key Chunk.of_bytes
  retrieve_chunk-deposit_chunk c s s' h o =
      let saved =
        load_chunk-save_chunk c.metadata (representation fs c.metadata s) c.uid c.cuid s.database in
      let same = deposit_chunk-deposited c s s' h in
      let back : read_file fs (representation fs c.metadata s) (deposited c s).disk ≡ ok c.bytes =
        rw same at o in
      rw (same, retrieve_chunk-answer c.uid c.cuid (deposited c s)) (ground (arith, saved, back))

  read_file-make_parent :
      (name : String) (m : Metadata) (s : Store fs)
      → read_file fs name (make_parent fs m s).1.disk ≡ read_file fs name s.disk
  unfolding read_file make_parent
  read_file-make_parent name m s =
      elim (Bool-cases (fs.exists (fs.parent_path (filepath fs m s)) s.disk)) [
        | inl e ↦ rw (e, make_parent)
        | inr e ↦
            rw (e, make_parent)
              (ap₂ all_read (fs.file_size-create_directories name _ s.disk)
                (fun_ext λ n. fs.readsome-create_directories name n _ s.disk))
      ]

  -- A deposit leaves other chunks alone: a chunk with another uid or cuid, whose file reads as
  -- before, is retrieved as before.
  pub retrieve_chunk-deposit_chunk_ne :
      (c : Chunk) (s s' : Store fs) (uid : String) (cuid : ℤ) (name : String)
      → deposit_chunk fs c s ≡ (ok tt, s')
      → get_key c.metadata ≢ (uid, cuid)
      → Db.load_chunk uid cuid s.database ≡ ok name
      → read_file fs name s'.disk ≡ read_file fs name s.disk
      → (retrieve_chunk fs uid cuid s').0 ≡ (retrieve_chunk fs uid cuid s).0
  retrieve_chunk-deposit_chunk_ne c s s' uid cuid name h ne e other =
      let file = representation fs c.metadata s in
      let kept : read_file fs name (deposited c s).disk ≡ read_file fs name s.disk =
        rw (deposit_chunk-deposited c s s' h) at other in
      rw
        (
          deposit_chunk-deposited c s s' h,
          retrieve_chunk-answer uid cuid (deposited c s),
          retrieve_chunk-answer uid cuid s,
        )
        (ground (arith, load_chunk-save_chunk c.metadata file uid cuid s.database, kept))

  -- Where the chunk's file does not open, `deposit_chunk` still ends well and records the name: a
  -- retrieval then answers with what an older file of that name held, or with the exception for a
  -- missing one, and never with the deposited bytes unless they were there.
  pub deposit_chunk_unopened :
      (c : Chunk) (s s' : Store fs)
      → deposit_chunk fs c s ≡ (ok tt, s')
      → opens (representation fs c.metadata s) (make_parent fs c.metadata s).1.disk ≡ false
      → (retrieve_chunk fs c.uid c.cuid s').0
        ≡ and_then
            (read_file fs (representation fs c.metadata s) s.disk)
            (λ b. ok (Chunk.of_bytes c.uid c.cuid b))
  unfolding get_key
  deposit_chunk_unopened c s s' h o =
      let file = representation fs c.metadata s in
      rw (deposit_chunk-deposited c s s' h, retrieve_chunk-answer c.uid c.cuid (deposited c s))
        (ground (
          arith,
          load_chunk-save_chunk c.metadata file c.uid c.cuid s.database,
          fs.write_file_unopened file c.bytes (make_parent fs c.metadata s).1.disk o,
          read_file-make_parent file c.metadata s,
        ))
