-- ===== src/Cache/Policy.antt =====
-- The template parameters of cache/cache.hpp: the value type and the policy's callbacks
-- (cache/policy/), which act on a world outside the cache.
use colony_fs.Base.Outcome.{Action}

pub record Policy (K T W : Type 0) : Type 0 where
  -- `ValueFactory<T>::NewPointer(key)` and `T::get_key()`
  pub new_pointer : K → T
  pub get_key : T → K
  pub pre_read : T → Action W T
  pub on_flush : T → Action W (Unit {0})
  pub on_erase : T → Action W (Unit {0})
  pub on_done : Action W (Unit {0})
