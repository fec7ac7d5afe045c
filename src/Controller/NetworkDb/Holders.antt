-- ===== src/Controller/NetworkDb/Holders.antt =====
-- The index keeps what was announced and not withdrawn since.
use mathlib.Core.List.{append-nil, append_assoc}
use colony_fs.Base.{
  String, List, [], ◌∷◌, ◌++◌, ◌≡◌, refl, sym, ◌∙◌, ap, Bool, true, false, if◌then◌else◌, ite,
  Bool-cases, inl, inr, arith,
}
use colony_fs.Base.Int.{ℤ}
use colony_fs.Base.Key.{ChunkKey, ChunkKey-discrete, String-discrete}
use colony_fs.Storage.Metadata.{get_key}
use colony_fs.Controller.NetworkDb.{
  NetworkMetadata, network_metadata, without, Container, NetworkDb, network_db, insert_metadata,
  insert_parts, invalidate_host, find_chunk, Call, add, add_parts, drop_host, run,
}

module _ (container : Container) where
  -- Whether a later call drops the host.
  abbrev pub dropped : String → List (Call container) → Bool
  dropped host [] = false
  dropped host (add c ∷ cs) = dropped host cs
  dropped host (add_parts uid cuid h ∷ cs) = dropped host cs
  dropped host (drop_host h ∷ cs) = ite (String-discrete host h) true (dropped host cs)

  -- An entry counts if it is of the chunk and its host is not dropped later.
  abbrev kept :
      ChunkKey
      → NetworkMetadata
      → List (Call container)
      → List NetworkMetadata
      → List NetworkMetadata
  kept k c later rest =
      ite (ChunkKey-discrete (get_key c.basic) k) (if dropped c.host later then rest else c ∷ rest)
        rest

  -- The abstract view: the announcements of a chunk, in their order, whose hosts were not dropped
  -- after them.
  abbrev pub holders : ChunkKey → List (Call container) → List NetworkMetadata
  holders k [] = []
  holders k (add c ∷ cs) = kept k c cs (holders k cs)
  holders k (add_parts uid cuid host ∷ cs) =
      kept k (network_metadata uid cuid host) cs (holders k cs)
  holders k (drop_host h ∷ cs) = holders k cs

  -- The entries whose hosts no call drops.
  abbrev surviving : List (Call container) → List NetworkMetadata → List NetworkMetadata
  surviving calls [] = []
  surviving calls (c ∷ cs) =
      if dropped c.host calls then surviving calls cs else c ∷ surviving calls cs

  surviving-nil : (cs : List NetworkMetadata) → surviving [] cs ≡ cs
  surviving-nil [] = refl
  surviving-nil (c ∷ cs) = ap (c ∷◌) (surviving-nil cs)

  surviving-append :
      (calls : List (Call container)) (xs ys : List NetworkMetadata)
      → surviving calls (xs ++ ys) ≡ surviving calls xs ++ surviving calls ys
  surviving-append calls [] ys = refl
  surviving-append calls (x ∷ xs) ys = ground (arith, surviving-append calls xs ys)

  surviving-drop_host :
      (h : String) (calls : List (Call container)) (xs : List NetworkMetadata)
      → surviving (drop_host h ∷ calls) xs ≡ surviving calls (without h xs)
  surviving-drop_host h calls [] = refl
  surviving-drop_host h calls (x ∷ xs) = ground (arith, surviving-drop_host h calls xs)

  surviving-add :
      (c : NetworkMetadata) (calls : List (Call container)) (xs : List NetworkMetadata)
      → surviving (add c ∷ calls) xs ≡ surviving calls xs
  surviving-add c calls [] = refl
  surviving-add c calls (x ∷ xs) = rw (surviving-add c calls xs) refl

  surviving-add_parts :
      (uid : String) (cuid : ℤ) (host : String) (calls : List (Call container))
      (xs : List NetworkMetadata)
      → surviving (add_parts uid cuid host ∷ calls) xs ≡ surviving calls xs
  surviving-add_parts uid cuid host calls [] = refl
  surviving-add_parts uid cuid host calls (x ∷ xs) =
      rw (surviving-add_parts uid cuid host calls xs) refl

  surviving-one :
      (c : NetworkMetadata) (calls : List (Call container)) (xs ys : List NetworkMetadata)
      → surviving calls (xs ++ (c ∷ [])) ++ ys
        ≡ surviving calls xs ++ (if dropped c.host calls then ys else c ∷ ys)
  surviving-one c calls xs ys = elim (Bool-cases (dropped c.host calls)) [
    | inl gone ↦ rw (surviving-append calls xs (c ∷ []), gone, append-nil) refl
    | inr stays ↦
        rw (surviving-append calls xs (c ∷ []), stays)
          (append_assoc (surviving calls xs) (c ∷ []) ys)
  ]

  -- A new entry, before the calls that follow it.
  surviving-kept :
      (k : ChunkKey) (c : NetworkMetadata) (calls : List (Call container))
      (xs ys : List NetworkMetadata)
      → surviving calls (ite (ChunkKey-discrete (get_key c.basic) k) (xs ++ (c ∷ [])) xs) ++ ys
        ≡ surviving calls xs ++ kept k c calls ys
  surviving-kept k c calls xs ys =
      elim (ChunkKey-discrete (get_key c.basic) k)
        as (λ d.
          surviving calls (ite d (xs ++ (c ∷ [])) xs) ++ ys
          ≡ surviving calls xs ++ ite d (if dropped c.host calls then ys else c ∷ ys) ys) [
            | yes same ↦ surviving-one c calls xs ys
            | no differ ↦ refl
          ]

  run-holders :
      (k : ChunkKey) (calls : List (Call container)) (d : NetworkDb container)
      → container.equal_range k (run container calls d).database
        ≡ surviving calls (container.equal_range k d.database) ++ holders k calls
  unfolding run
  run-holders k [] d = rw (append-nil, surviving-nil (container.equal_range k d.database)) refl
  run-holders k (add c ∷ cs) d =
      run-holders k cs (insert_metadata container c d)
      ∙ ap (λ (xs : List NetworkMetadata). surviving cs xs ++ holders k cs)
          (container.equal_range-insert k c d.database)
      ∙ surviving-kept k c cs (container.equal_range k d.database) (holders k cs)
      ∙ ap (λ (xs : List NetworkMetadata). xs ++ kept k c cs (holders k cs))
          (sym (surviving-add c cs (container.equal_range k d.database)))
  run-holders k (add_parts uid cuid host ∷ cs) d =
      let c = network_metadata uid cuid host in
      run-holders k cs (insert_parts container uid cuid host d)
      ∙ ap (λ (xs : List NetworkMetadata). surviving cs xs ++ holders k cs)
          (container.equal_range-insert k c d.database)
      ∙ surviving-kept k c cs (container.equal_range k d.database) (holders k cs)
      ∙ ap (λ (xs : List NetworkMetadata). xs ++ kept k c cs (holders k cs))
          (sym (surviving-add_parts uid cuid host cs (container.equal_range k d.database)))
  run-holders k (drop_host h ∷ cs) d =
      run-holders k cs (invalidate_host container h d)
      ∙ ap (λ (xs : List NetworkMetadata). surviving cs xs ++ holders k cs)
          (container.equal_range-erase_host k h d.database)
      ∙ ap (λ (xs : List NetworkMetadata). xs ++ holders k cs)
          (sym (surviving-drop_host h cs (container.equal_range k d.database)))

  -- After any calls of a new index `find_chunk` gives, in the order in which they were announced,
  -- the entries of the chunk whose hosts were not dropped by a later call.
  pub find_chunk-holders :
      (uid : String) (cuid : ℤ) (calls : List (Call container))
      → find_chunk container uid cuid (run container calls (network_db container))
        ≡ holders (uid, cuid) calls
  unfolding find_chunk network_db
  find_chunk-holders uid cuid calls =
      run-holders (uid, cuid) calls (network_db container)
      ∙ ap (λ (xs : List NetworkMetadata). surviving calls xs ++ holders (uid, cuid) calls)
          (container.equal_range-empty (uid, cuid))
