-- ===== src/Fuse/State.antt =====
-- The state behind the handlers: a sink for the attributes (`aggregator` over `sink_local_impl` of
-- api/aggregator.hpp), the data sink, and the flushes that are still to run.
use Prim.Native.String.{len}
use colony_fs.Base.{ℕ, ◌-◌, ◌%◌, ◌^◌, String, List, Bool, leb}
use colony_fs.Base.Int.{ℤ, pos, negsuc}
use colony_fs.Base.Key.{string_key}
use colony_fs.Base.Outcome.{Outcome, raise, lookup_e, Action, ◌>>=◌, pure}
use colony_fs.Cache.Basic.{Cache}
use colony_fs.Cache.Policy.{Policy}
use colony_fs.Cache.Front.{
  call, subscript, load, edit, purge, purge_all, invalidate, invalidate_all,
}
use colony_fs.Dht.Values.{Value}
use colony_fs.Sink.Data.{DataSink}
use colony_fs.Fuse.Attribute.{Attribute}

-- What a handler asks the system for: the user, the clock, and the parts of a path.
pub record Env : Type 0 where
  pub uid : ℕ
  pub gid : ℕ
  pub now_sec : ℕ
  pub now_nsec : ℕ
  pub parent_path : String → String
  pub filename : String → String

-- Both caches act on one `world`, the network. `counter` is `g_flush_counter`, `tasks` are the
-- spawned tasks that have not run.
pub record State (W : Type 0) : Type 0 where
  pub metadata : Cache String (Value Attribute) W
  pub chunks : DataSink W
  pub world : W
  pub counter : ℕ
  pub tasks : List String

module _ {W : Type 0} where
  abbrev pub in_metadata :
      {A : Type 0} → Action (Cache String (Value Attribute) W) A → Action (State W) A
  in_metadata act s =
      let (r, c) = act (record s.metadata { world = s.world }) in
      (r, record s { metadata = c; world = c.world })

  abbrev pub in_data : {A : Type 0} → Action (DataSink W) A → Action (State W) A
  in_data act s =
      let (r, d) = act (record s.chunks { cache = record s.chunks.cache { world = s.world } }) in
      (r, record s { chunks = d; world = d.cache.world })

  -- `pair->get_mapped()`, read, and changed in place.
  unfoldable pub get_mapped : ℕ → Action (State W) Attribute
  unfolding load
  get_mapped pair = do v ← in_metadata (load pair); pure v.mapped

  unfoldable pub change : ℕ → (Attribute → Attribute) → Action (State W) (Unit {0})
  unfolding edit
  change pair f = in_metadata (edit pair (λ v. record v { mapped = f v.mapped }))

module _ {W : Type 0} (policy : Policy String (Value Attribute) W) where
  -- `metadata_sink_[key]`, `metadata_sink_(key)`, and the other members of the sink.
  unfoldable pub entry : String → Action (State W) ℕ
  unfolding subscript
  entry key = in_metadata (subscript policy key)

  unfoldable pub lookup : String → Action (State W) ℕ
  unfolding call
  lookup key = in_metadata (call policy key)

  unfoldable pub purge_entry : String → Action (State W) (Unit {0})
  unfolding purge
  purge_entry key = in_metadata (purge policy key)

  unfoldable pub purge_metadata : Action (State W) (Unit {0})
  unfolding purge_all
  purge_metadata = in_metadata (purge_all policy)

  unfoldable pub invalidate_entry : String → Action (State W) (Unit {0})
  unfolding invalidate
  invalidate_entry key = in_metadata (invalidate policy key)

  unfoldable pub invalidate_metadata : Action (State W) (Unit {0})
  unfolding invalidate_all
  invalidate_metadata = in_metadata (invalidate_all policy)

-- `catch (colony::lookup_e&)`
abbrev pub on_lookup : {S A : Type 0} → Outcome A → Action S A → Action S A
on_lookup (raise lookup_e) handler s = handler s
on_lookup r handler s = (r, s)

abbrev pub catch_lookup : {S A : Type 0} → Action S A → Action S A → Action S A
catch_lookup m handler s = let (r, s') = m s in on_lookup r handler s'

-- The conversion of an `off_t` to a `size_t`.
abbrev pub size_of : ℤ → ℕ
size_of (pos n) = n % 2 ^ 64
size_of (negsuc n) = 2 ^ 64 - 1 - n % 2 ^ 64

-- `validate_path`
unfoldable pub validate_path : String → Bool
validate_path path = leb (len path) 255
