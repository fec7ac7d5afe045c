-- ===== src/Sink/Data/Sound.antt =====
-- Every operation of the data sink keeps its cache sound (api/aggregator.hpp).
use colony_fs.Base.{
  ℕ, zero, suc, ◌+◌, ◌%◌, ◌/◌, String, List, [], ◌∷◌, refl, Option-cases, inl, inr,
}
use colony_fs.Base.Int.{ℤ}
use colony_fs.Base.Key.{ChunkKey, chunk_key, string_key}
use colony_fs.Base.Map.{Map, find}
use colony_fs.Base.Keeps.{Keeps, pure-Keeps, fail-Keeps, gets-Keeps, modify-Keeps, bind-Keeps}
use colony_fs.Base.Outcome.{Action}
use colony_fs.Storage.Chunk.{Chunk}
use colony_fs.Cache.Basic.{Cache}
use colony_fs.Cache.Front.{load, edit, purge, invalidate}
use colony_fs.Cache.Sound.{IsSound}
use colony_fs.Cache.Sound.Operations.{
  call-IsSound, subscript-IsSound, purge-IsSound, purge_all-IsSound, invalidate-IsSound,
  invalidate_all-IsSound, edit-IsSound,
}
use colony_fs.Cache.Sound.Misses.{KeepsKey}
use colony_fs.Sink.Copy.{copy, copy_loop, piece, rounds, size_mod}
use colony_fs.Sink.Bytes.{resize, read_from_chunk}
use colony_fs.Sink.Data.{
  Remote, DataSink, Transfer, chunk_policy, in_cache, in_sink, note_index, write_piece, read_piece,
  create_if_missing, raise_if_missing, write, read, truncate, rename, erase, each_index, indices,
  purge_file, invalidate_file, invalidate_sink, purge_sink,
}

copy-Keeps :
    {S R : Type 0} {P : S → Type 0} (chunk_size size : ℕ) (key_policy : ℕ → Action S R)
    (action_policy : R → ℕ → ℕ → ℕ → Action S (Unit {0})) (offset : ℕ)
    → ((n : ℕ) → Keeps P (key_policy n))
    → ((r : R) (a b c : ℕ) → Keeps P (action_policy r a b c))
    → Keeps P (copy chunk_size size key_policy action_policy offset)
unfolding copy
copy-Keeps {S} {R} {P} cs size kp ap offset hk ha =
    loop (rounds cs size offset) (offset / cs) 0 offset
  where
    loop :
        (n count buffer_start offset : ℕ)
        → Keeps P (copy_loop cs size kp ap n count buffer_start offset)
    loop zero count b off = pure-Keeps tt
    loop (suc n) count b off =
        let p = piece cs size count b off in
        bind-Keeps _ _ (hk p.count) (λ chunk.
          bind-Keeps _ _ (ha chunk p.chunk_start p.buffer_start p.chunk_delta)
            (λ _. loop n (count + 1) ((b + p.chunk_delta) % size_mod) 0))

module _ {W : Type 0} (remote : Remote W) where
  -- The sink's cache is sound, and a transfer's sink.
  abbrev pub Sound : DataSink W → Type 0
  Sound d = IsSound (chunk_policy remote) d.cache

  abbrev pub SoundTransfer : Transfer W → Type 0
  SoundTransfer t = Sound t.sink

  in_cache-Keeps :
      {A : Type 0} (act : Action (Cache ChunkKey Chunk W) A)
      → ((c : Cache ChunkKey Chunk W)
          → IsSound (chunk_policy remote) c
          → IsSound (chunk_policy remote) (act c).1)
      → Keeps Sound (in_cache act)
  in_cache-Keeps act h = record { after = λ d s. h d.cache s }

  in_sink-Keeps :
      {A : Type 0} (act : Action (DataSink W) A)
      → Keeps Sound act
      → Keeps SoundTransfer (in_sink act)
  in_sink-Keeps act k = record { after = λ t s. k.after t.sink s }

  load-Keeps : (q : ℕ) → Keeps Sound (in_cache (load q))
  unfolding load
  load-Keeps q = in_cache-Keeps (load q) (λ c s. elim (Option-cases (c.cell q)) [
    | inl gone ↦ rw (gone, load) s
    | inr (v, there) ↦ rw (there, load) s
  ])

  with_bytes-Keeps :
      (q : ℕ) (f : Chunk → List ℕ) → Keeps Sound (in_cache (edit q (λ u. record u { bytes = f u })))
  unfolding chunk_policy
  with_bytes-Keeps q f =
      in_cache-Keeps (edit q (λ u. record u { bytes = f u })) (λ c s.
        edit-IsSound (chunk_policy remote) q (λ u. record u { bytes = f u }) c (λ v. refl) s)

  write_piece-Keeps :
      (source : List ℕ) (chunk a b c : ℕ) → Keeps Sound (write_piece source chunk a b c)
  unfolding write_piece
  write_piece-Keeps source chunk a b c =
      bind-Keeps _ _ (load-Keeps chunk)
        (λ v. bind-Keeps _ _ (fail-Keeps _) (λ bytes. with_bytes-Keeps chunk (λ u. bytes)))

  read_piece-Keeps : (chunk a b c : ℕ) → Keeps SoundTransfer (read_piece chunk a b c)
  unfolding read_piece
  read_piece-Keeps chunk a b c = bind-Keeps _ _ (in_sink-Keeps _ (load-Keeps chunk)) (λ v.
      bind-Keeps _ _ (gets-Keeps (λ t. t.buffer)) (λ to.
        bind-Keeps _ _ (fail-Keeps (read_from_chunk v.bytes to a b c))
          (λ bytes. modify-Keeps (λ t. record t { buffer = bytes }) (λ t s. s))))

  create_if_missing-Keeps :
      (filepath : String) (n : ℕ) → Keeps Sound (create_if_missing remote filepath n)
  unfolding create_if_missing note_index
  create_if_missing-Keeps filepath n =
      bind-Keeps _ _ (in_cache-Keeps _ (subscript-IsSound (chunk_policy remote) _)) (λ q.
        bind-Keeps _ _ (load-Keeps q)
          (λ v. bind-Keeps _ _ (modify-Keeps _ (λ d s. s)) (λ u. pure-Keeps q)))

  module _ (keeps : KeepsKey (chunk_policy remote)) where
    raise_if_missing-Keeps :
        (filepath : String) (n : ℕ) → Keeps Sound (raise_if_missing remote filepath n)
    unfolding raise_if_missing
    raise_if_missing-Keeps filepath n =
        in_cache-Keeps _ (λ c s. call-IsSound (chunk_policy remote) _ c keeps s)

    module _ (chunk_size : ℕ) where
      pub read-Keeps :
          (filepath : String) (size offset : ℕ)
          → Keeps SoundTransfer (read remote chunk_size filepath size offset)
      unfolding read
      read-Keeps filepath size offset =
          copy-Keeps chunk_size size _ _ offset
            (λ n. in_sink-Keeps _ (raise_if_missing-Keeps filepath n)) read_piece-Keeps

      pub truncate-Keeps :
          (filepath : String) (new old : ℕ)
          → Keeps Sound (truncate remote chunk_size filepath new old)
      unfolding truncate
      truncate-Keeps filepath new old =
          bind-Keeps _ _ (raise_if_missing-Keeps filepath _)
            (λ q. with_bytes-Keeps q (λ v. resize (new % chunk_size) v.bytes))

  module _ (chunk_size : ℕ) where
    pub write-Keeps :
        (filepath : String) (buffer : List ℕ) (size offset : ℕ)
        → Keeps Sound (write remote chunk_size filepath buffer size offset)
    unfolding write
    write-Keeps filepath buffer size offset =
        copy-Keeps chunk_size size _ _ offset (create_if_missing-Keeps filepath)
          (write_piece-Keeps buffer)

    pub rename-Keeps :
        (old new : String) (size : ℕ) → Keeps Sound (rename remote chunk_size old new size)
    unfolding rename
    rename-Keeps old new size = pure-Keeps tt

    pub erase-Keeps :
        (filepath : String) (size : ℕ) → Keeps Sound (erase remote chunk_size filepath size)
    unfolding erase
    erase-Keeps filepath size = pure-Keeps tt

  each_index-Keeps :
      (act : ChunkKey → Action (Cache ChunkKey Chunk W) (Unit {0})) (filename : String)
      (m : Map ℤ (Unit {0}))
      → ((k : ChunkKey) → Keeps Sound (in_cache (act k)))
      → Keeps Sound (each_index remote act filename m)
  each_index-Keeps act filename [] h = pure-Keeps tt
  each_index-Keeps act filename ((i, u) ∷ is) h =
      bind-Keeps _ _ (h (filename, i)) (λ v. each_index-Keeps act filename is h)

  indices-Keeps : (filename : String) → Keeps Sound (indices remote filename)
  unfolding indices
  indices-Keeps filename = record {
    after = λ d s. elim (Option-cases (find filename d.index_map)) [
      | inl none_yet ↦ rw (none_yet, indices) s
      | inr (is, there) ↦ rw (there, indices) s
    ];
  }

  pub purge_file-Keeps : (filename : String) → Keeps Sound (purge_file remote filename)
  unfolding purge_file
  purge_file-Keeps filename = bind-Keeps _ _ (indices-Keeps filename) (λ is.
      each_index-Keeps (purge (chunk_policy remote)) filename is (λ k.
        in_cache-Keeps (purge (chunk_policy remote) k) (purge-IsSound (chunk_policy remote) k)))

  pub invalidate_file-Keeps : (filename : String) → Keeps Sound (invalidate_file remote filename)
  unfolding invalidate_file
  invalidate_file-Keeps filename = bind-Keeps _ _ (indices-Keeps filename) (λ is.
      each_index-Keeps (invalidate (chunk_policy remote)) filename is (λ k.
        in_cache-Keeps (invalidate (chunk_policy remote) k)
          (invalidate-IsSound (chunk_policy remote) k)))

  pub invalidate_sink-Keeps : Keeps Sound (invalidate_sink remote)
  unfolding invalidate_sink
  invalidate_sink-Keeps = in_cache-Keeps _ (invalidate_all-IsSound (chunk_policy remote))

  pub purge_sink-Keeps : Keeps Sound (purge_sink remote)
  unfolding purge_sink
  purge_sink-Keeps = in_cache-Keeps _ (purge_all-IsSound (chunk_policy remote))
