-- ===== src/Storage/Util/History.antt =====
-- A chunkserver's disk and index together are one map from names to chunks (storage/util.cpp).
use mathlib.Core.Path.{subst}
use mathlib.Core.Logic.{if_pos, if_neg}
use colony_fs.Base.{
  String, List, [], ◌∷◌, Option, none, some, ◌≡◌, ◌≢◌, refl, sym, ◌∙◌, ap, ◌⊎◌, inl, inr, ite,
}
use colony_fs.Base.Int.{ℤ}
use colony_fs.Base.Key.{ChunkKey, ChunkKey-discrete}
use colony_fs.Base.Outcome.{
  Outcome, ok, raise, inexistent_file_e, Action, ◌>>◌, pure, and_then, bind_ok,
}
use colony_fs.Storage.Metadata.{Metadata, get_key}
use colony_fs.Storage.Chunk
use colony_fs.Storage.Chunk.{Chunk}
use colony_fs.Storage.Db
use colony_fs.Storage.Db.Lookup.{load_chunk-save_chunk}
use colony_fs.Storage.FileSystem.{FileSystem}
use colony_fs.Storage.Util.{Store, representation, deposit_chunk, retrieve_chunk, read_file}
use colony_fs.Storage.Util.RoundTrip.{
  deposited, deposit_chunk-deposited, retrieve_chunk-deposit_chunk, retrieve_chunk-deposit_chunk_ne,
  retrieve_chunk-answer,
}

abbrev pub last_of : Option Chunk → Option Chunk → Option Chunk
last_of none c = c
last_of (some d) c = some d

-- The abstract view: the last chunk of a name.
abbrev pub latest : ChunkKey → List Chunk → Option Chunk
latest k [] = none
latest k (c ∷ cs) =
    last_of (latest k cs) (ite (ChunkKey-discrete (get_key c.metadata) k) (some c) none)

abbrev pub or_else : Option Chunk → Outcome Chunk → Outcome Chunk
or_else none r = r
or_else (some c) r = ok c

or_else-last_of :
    {P : Type 0} (o : Option Chunk) (c : Chunk) (d : Dec P) (r : Outcome Chunk)
    → or_else o (ite d (ok c) r) ≡ or_else (last_of o (ite d (some c) none)) r
or_else-last_of (some e) c d r = refl
or_else-last_of none c (yes h) r = refl
or_else-last_of none c (no h) r = refl

load_chunk-empty :
    (uid : String) (cuid : ℤ) → Db.load_chunk uid cuid Db.empty ≡ raise inexistent_file_e
unfolding Db.load_chunk Db.empty
load_chunk-empty uid cuid = refl

module _ (fs : FileSystem) where
  unfoldable pub deposits : List Chunk → Action (Store fs) (Unit {0})
  deposits [] = pure tt
  deposits (c ∷ cs) = do deposit_chunk fs c; deposits cs

  -- Each deposit ends without an exception, and its file is then read whole with its bytes.
  abbrev pub AllStored : List Chunk → Store fs → Type 0
  AllStored [] s = Unit {0}
  AllStored (c ∷ cs) s =
      (deposit_chunk fs c s ≡ (ok tt, (deposit_chunk fs c s).1))
      × (read_file fs (representation fs c.metadata s) (deposit_chunk fs c s).1.disk ≡ ok c.bytes)
      × AllStored cs (deposit_chunk fs c s).1

  -- The deposits of other chunks leave the file of this one as it reads.
  abbrev pub Apart : Metadata → List Chunk → Store fs → Type 0
  Apart m [] s = Unit {0}
  Apart m (c ∷ cs) s =
      (get_key c.metadata ≢ get_key m
        → read_file fs (representation fs m s) (deposit_chunk fs c s).1.disk
          ≡ read_file fs (representation fs m s) s.disk)
      × Apart m cs (deposit_chunk fs c s).1

  -- The index names the file of a chunk, or knows nothing of it.
  abbrev Named : Metadata → Store fs → Type 0
  Named m s =
      (Db.load_chunk m.uid m.cuid s.database ≡ raise inexistent_file_e)
      ⊎ (Db.load_chunk m.uid m.cuid s.database ≡ ok (representation fs m s))

  abbrev retrieved : Metadata → Store fs → Outcome Chunk
  retrieved m s = (retrieve_chunk fs m.uid m.cuid s).0

  -- What a deposit does to the chunk of a name.
  abbrev Stepped : Metadata → Chunk → Store fs → Type 0
  Stepped m c s =
      Named m (deposited fs c s)
      × (retrieved m (deposited fs c s)
          ≡ ite (ChunkKey-discrete (get_key c.metadata) (get_key m)) (ok c) (retrieved m s))

  own_step :
      (c : Chunk) (s : Store fs)
      → deposit_chunk fs c s ≡ (ok tt, deposited fs c s)
      → read_file fs (representation fs c.metadata s) (deposited fs c s).disk ≡ ok c.bytes
      → Stepped c.metadata c s
  unfolding representation get_key
  own_step c s stored opened =
      let saved =
        load_chunk-save_chunk c.metadata (representation fs c.metadata s) c.uid c.cuid s.database in
      let back = retrieve_chunk-deposit_chunk fs c s (deposited fs c s) stored opened in
      (
        inr (saved ∙ if_pos (ChunkKey-discrete (get_key c.metadata) (c.uid, c.cuid)) refl _ _),
        ap (λ (x : Outcome Chunk × Store fs). x.0) back
            ∙ sym (if_pos (ChunkKey-discrete (get_key c.metadata) (get_key c.metadata)) refl _ _),
      )

  retrieved_unknown :
      (m : Metadata) (s : Store fs)
      → Db.load_chunk m.uid m.cuid s.database ≡ raise inexistent_file_e
      → retrieved m s ≡ raise inexistent_file_e
  retrieved_unknown m s unknown =
      ap (λ (x : Outcome Chunk × Store fs). x.0) (retrieve_chunk-answer fs m.uid m.cuid s)
      ∙ ap
          (λ (r : Outcome String).
            and_then r (λ name.
              and_then (read_file fs name s.disk) (λ b. ok (Chunk.of_bytes m.uid m.cuid b))))
          unknown

  load_same :
      (m : Metadata) (c : Chunk) (s : Store fs)
      → get_key c.metadata ≢ get_key m
      → Db.load_chunk m.uid m.cuid (deposited fs c s).database
        ≡ Db.load_chunk m.uid m.cuid s.database
  unfolding get_key
  load_same m c s differ =
      load_chunk-save_chunk c.metadata (representation fs c.metadata s) m.uid m.cuid s.database
      ∙ if_neg (ChunkKey-discrete (get_key c.metadata) (m.uid, m.cuid)) differ _ _

  other_step :
      (m : Metadata) (c : Chunk) (s : Store fs)
      → deposit_chunk fs c s ≡ (ok tt, deposited fs c s)
      → get_key c.metadata ≢ get_key m
      → read_file fs (representation fs m s) (deposited fs c s).disk
        ≡ read_file fs (representation fs m s) s.disk
      → Named m s
      → Stepped m c s
  unfolding representation get_key
  other_step m c s stored differ apart (inl unknown) =
      let same = load_same m c s differ in
      (
        inl (same ∙ unknown),
        retrieved_unknown m (deposited fs c s) (same ∙ unknown)
            ∙ sym (retrieved_unknown m s unknown)
            ∙ sym (if_neg (ChunkKey-discrete (get_key c.metadata) (get_key m)) differ _ _),
      )
  other_step m c s stored differ apart (inr known) =
      let same = load_same m c s differ in
      (
        inr (same ∙ known),
        retrieve_chunk-deposit_chunk_ne fs c s (deposited fs c s) m.uid m.cuid
              (representation fs m s) stored differ known apart
            ∙ sym (if_neg (ChunkKey-discrete (get_key c.metadata) (get_key m)) differ _ _),
      )

  deposit_step :
      (m : Metadata) (c : Chunk) (s : Store fs)
      → deposit_chunk fs c s ≡ (ok tt, deposited fs c s)
      → read_file fs (representation fs c.metadata s) (deposited fs c s).disk ≡ ok c.bytes
      → (get_key c.metadata ≢ get_key m
          → read_file fs (representation fs m s) (deposited fs c s).disk
            ≡ read_file fs (representation fs m s) s.disk)
      → Named m s
      → Stepped m c s
  unfolding get_key
  deposit_step m c s stored opened apart named =
      elim (ChunkKey-discrete (get_key c.metadata) (get_key m)) [
        | yes same ↦
            let p : c.metadata ≡ m = ap (λ (k : ChunkKey). record { uid = k.0; cuid = k.1 }) same in
            subst (λ (x : Metadata). Stepped x c s) p (own_step c s stored opened)
        | no differ ↦ other_step m c s stored differ (apart differ) named
      ]

  or_else-latest :
      (k : ChunkKey) (c : Chunk) (cs : List Chunk) (r : Outcome Chunk)
      → or_else (latest k cs) (ite (ChunkKey-discrete (get_key c.metadata) k) (ok c) r)
        ≡ or_else (latest k (c ∷ cs)) r
  or_else-latest k c cs r =
      or_else-last_of (latest k cs) c (ChunkKey-discrete (get_key c.metadata) k) r

  history :
      (m : Metadata) (cs : List Chunk) (s : Store fs)
      → AllStored cs s
      → Apart m cs s
      → Named m s
      → retrieved m (deposits cs s).1 ≡ or_else (latest (get_key m) cs) (retrieved m s)
  unfolding deposits
  history m [] s stored apart named = refl
  history m (c ∷ cs) s (stored, opened, rest) (h, hs) named =
      let s' = (deposit_chunk fs c s).1 in
      let same = deposit_chunk-deposited fs c s s' stored in
      let ended : deposit_chunk fs c s ≡ (ok tt, deposited fs c s) =
        stored ∙ ap (λ (x : Store fs). (ok tt, x)) same in
      let back =
        subst (λ (x : Store fs). read_file fs (representation fs c.metadata s) x.disk ≡ ok c.bytes)
          same opened in
      let aside = λ (differ : get_key c.metadata ≢ get_key m).
        subst
          (λ (x : Store fs).
            read_file fs (representation fs m s) x.disk
            ≡ read_file fs (representation fs m s) s.disk)
          same (h differ) in
      let (named', stepped) = deposit_step m c s ended back aside named in
      ap (λ (x : Outcome (Unit {0}) × Store fs). retrieved m x.1)
        (bind_ok (deposit_chunk fs c) (λ _. deposits cs) s (deposited fs c s) tt ended)
      ∙ history m cs (deposited fs c s) (subst (AllStored cs) same rest)
          (subst (Apart m cs) same hs) named'
      ∙ ap (or_else (latest (get_key m) cs)) stepped
      ∙ or_else-latest (get_key m) c cs (retrieved m s)

  pub retrieve_chunk-unchanged :
      (m : Metadata) (s : Store fs) → (retrieve_chunk fs m.uid m.cuid s).1 ≡ s
  retrieve_chunk-unchanged m s =
      ap (λ (x : Outcome Chunk × Store fs). x.1) (retrieve_chunk-answer fs m.uid m.cuid s)

  pub retrieve_chunk-deposits :
      (m : Metadata) (cs : List Chunk) (s : Store fs)
      → s.database ≡ Db.empty
      → AllStored cs s
      → Apart m cs s
      → (retrieve_chunk fs m.uid m.cuid (deposits cs s).1).0
        ≡ or_else (latest (get_key m) cs) (raise inexistent_file_e)
  retrieve_chunk-deposits m cs s new stored apart =
      let unknown : Db.load_chunk m.uid m.cuid s.database ≡ raise inexistent_file_e =
        ap (Db.load_chunk m.uid m.cuid) new ∙ load_chunk-empty m.uid m.cuid in
      history m cs s stored apart (inl unknown)
      ∙ ap (or_else (latest (get_key m) cs)) (retrieved_unknown m s unknown)
