-- ===== src/Fuse/Sound.antt =====
-- A state whose caches are both sound, and the steps of a handler of fuse/colonyfs_fusexx.cpp that
-- keep them so, however they end.
pub mod Tree
pub mod Io
pub mod Reachable
pub mod Mounted
use colony_fs.Base.{
  ℕ, ◌+◌, ◌≤◌, arith, length, Bool, true, false, ◌||◌, ◌&&◌, ◌==◌, not, String, List, [], ◌∷◌,
  Option, none, some, Option-cases, inl, inr, if◌then◌else◌, ltb,
}
use colony_fs.Base.Int.{ℤ, pos, negsuc, int_of}
use colony_fs.Base.Keeps.{
  Keeps, pure-Keeps, gets-Keeps, or_undefined-Keeps, fail-Keeps, if-Keeps, modify-Keeps,
  require-Keeps, bind-Keeps,
}
use colony_fs.Base.Key.{string_key, chunk_key}
use colony_fs.Base.Outcome.{
  Outcome, ok, raise, blocked, undefined, lookup_e, Action, ◌>>=◌, ◌>>◌, pure,
}
use colony_fs.Cache.Basic.{Cache}
use colony_fs.Cache.Front.{load, edit, call, subscript, purge, invalidate}
use colony_fs.Cache.Sound.{IsSound}
use colony_fs.Cache.Sound.Operations.{
  call-IsSound, subscript-IsSound, purge-IsSound, purge_all-IsSound, invalidate-IsSound,
  invalidate_all-IsSound, edit-IsSound,
}
use colony_fs.Cache.Sound.Misses.{KeepsKey, world-IsSound}
use colony_fs.Dht.Values.{Value}
use colony_fs.Sink.Data.{Remote, DataSink, Transfer, chunk_policy}
use colony_fs.Sink.Data.Sound.{
  Sound as SoundSink, SoundTransfer, write-Keeps, read-Keeps, truncate-Keeps, rename-Keeps,
  erase-Keeps, purge_file-Keeps, invalidate_file-Keeps,
}
use colony_fs.Fuse.Attribute.{Attribute, is_directory, is_link}
use colony_fs.Fuse.State.{
  Env, State, in_metadata, in_data, get_mapped, change, entry, lookup, purge_entry,
  invalidate_entry, on_lookup, catch_lookup, validate_path, size_of,
}
use colony_fs.Fuse.Tree.{
  register, start, chmod, chown, utime, mkdir, symlink, getattr, readdir, readlink, rmdir,
  rename_file, unlink, front, erase_first,
}
use colony_fs.Fuse.Update.{Attributes, IsKeyed, over}
use colony_fs.Fuse.Io.{into_buffer, create, read, write, truncate, flush, execute, run_task}

module _ {W : Type 0} (policy : Attributes W) (remote : Remote W) (n : ℕ) where
  -- Both caches are sound, and the flushes that wait or may still be spawned are at most `n`.
  pub record Sound (s : State W) : Type 0 where
    pub attributes : IsSound policy s.metadata
    pub chunks : SoundSink remote s.chunks
    pub few : s.counter + length s.tasks ≤ n

  in_metadata-Keeps :
      {A : Type 0} (act : Action (Cache String (Value Attribute) W) A)
      → ((c : Cache String (Value Attribute) W) → IsSound policy c → IsSound policy (act c).1)
      → Keeps Sound (in_metadata act)
  in_metadata-Keeps act h = record {
    after = λ s p. record {
      attributes = h _ (world-IsSound policy s.world s.metadata p.attributes);
      chunks = p.chunks;
      few = p.few;
    };
  }

  pub in_data-Keeps :
      {A : Type 0} (act : Action (DataSink W) A)
      → Keeps (SoundSink remote) act
      → Keeps Sound (in_data act)
  in_data-Keeps act k = record {
    after = λ s p. record {
      attributes = p.attributes;
      chunks = k.after _ (world-IsSound (chunk_policy remote) s.world s.chunks.cache p.chunks);
      few = p.few;
    };
  }

  pub into_buffer-Keeps :
      (buffer : List ℕ) (act : Action (Transfer W) (Unit {0}))
      → Keeps (SoundTransfer remote) act
      → Keeps Sound (into_buffer buffer act)
  into_buffer-Keeps buffer act k = record {
    after = λ s p. record {
      attributes = p.attributes;
      chunks = k.after _ (world-IsSound (chunk_policy remote) s.world s.chunks.cache p.chunks);
      few = p.few;
    };
  }

  on_lookup-Keeps :
      {A : Type 0} (r : Outcome A) (handler : Action (State W) A) (s : State W)
      → Keeps Sound handler
      → Sound s
      → Sound (on_lookup r handler s).1
  on_lookup-Keeps (raise lookup_e) handler s k p = k.after s p
  on_lookup-Keeps _ handler s k p = p

  pub catch_lookup-Keeps :
      {A : Type 0} (m handler : Action (State W) A)
      → Keeps Sound m
      → Keeps Sound handler
      → Keeps Sound (catch_lookup m handler)
  catch_lookup-Keeps m handler km kh = record {
    after = λ s p. let (r, s') = m s in on_lookup-Keeps r handler s' kh (km.after s p);
  }

  pub entry-Keeps : (key : String) → Keeps Sound (entry policy key)
  unfolding entry
  entry-Keeps key = in_metadata-Keeps (subscript policy key) (subscript-IsSound policy key)

  pub purge_entry-Keeps : (key : String) → Keeps Sound (purge_entry policy key)
  unfolding purge_entry
  purge_entry-Keeps key = in_metadata-Keeps (purge policy key) (purge-IsSound policy key)

  pub invalidate_entry-Keeps : (key : String) → Keeps Sound (invalidate_entry policy key)
  unfolding invalidate_entry
  invalidate_entry-Keeps key =
      in_metadata-Keeps (invalidate policy key) (invalidate-IsSound policy key)

  pub get_mapped-Keeps : (pair : ℕ) → Keeps Sound (get_mapped pair)
  unfolding get_mapped load
  get_mapped-Keeps pair =
      bind-Keeps _ _
        (in_metadata-Keeps (load pair) (λ c p. elim (Option-cases (c.cell pair)) [
          | inl gone ↦ rw (gone, load) p
          | inr (v, there) ↦ rw (there, load) p
        ]))
        (λ v. pure-Keeps v.mapped)

  module _ (keyed : IsKeyed policy) where
    pub change-Keeps : (pair : ℕ) (f : Attribute → Attribute) → Keeps Sound (change pair f)
    unfolding change
    change-Keeps pair f =
        in_metadata-Keeps (edit pair (over f))
          (λ c. edit-IsSound policy pair (over f) c (λ v. keyed v (f v.mapped)))

    pub register-Keeps : (branch leaf : String) → Keeps Sound (register policy branch leaf)
    unfolding register
    register-Keeps branch leaf = bind-Keeps _ _ (entry-Keeps branch) (λ q. change-Keeps q _)

    -- An attribute is changed, and the call goes on.
    pub update-Keeps :
        {A : Type 0} (key : String) (f : Attribute → Attribute) (rest : Action (State W) A)
        → Keeps Sound rest
        → Keeps Sound (entry policy key >>= λ pair. change pair f >> rest)
    update-Keeps key f rest k =
        bind-Keeps _ _ (entry-Keeps key) (λ q. bind-Keeps _ _ (change-Keeps q f) (λ _. k))

  pub lookup-Keeps : KeepsKey policy → (key : String) → Keeps Sound (lookup policy key)
  unfolding lookup
  lookup-Keeps keeps key =
      in_metadata-Keeps (call policy key) (λ c p. call-IsSound policy key c keeps p)
