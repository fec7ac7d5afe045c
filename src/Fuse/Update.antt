-- ===== src/Fuse/Update.antt =====
-- One attribute of the tree, read and changed through its sink.
pub mod Pointers
use colony_fs.Base.{
  ℕ, String, none, some, ◌≡◌, refl, sym, ◌∙◌, ap, arith, ite, Option-cases, inl, inr,
}
use colony_fs.Base.Key.{string_key}
use colony_fs.Base.Map.{find}
use colony_fs.Base.Outcome.{Outcome, ok, Action, ◌>>=◌, ◌>>◌, continue, bind_assoc}
use colony_fs.Cache.Heap.{put}
use colony_fs.Cache.Basic.{Cache, or_miss}
use colony_fs.Cache.Policy.{Policy}
use colony_fs.Cache.Front.{subscript, edit, load, entry_key, call, new_object}
use colony_fs.Cache.Sound.{IsSound}
use colony_fs.Cache.Sound.Operations.{subscript-IsSound, edit-IsSound}
use colony_fs.Cache.Sound.Misses.{world-IsSound}
use colony_fs.Cache.View.{view, or_else}
use colony_fs.Cache.View.Subscript.{view-subscript, subscript-entry}
use colony_fs.Cache.View.Edit.{edit_lem, view-edit}
use colony_fs.Dht.Values.{Value}
use colony_fs.Fuse.Attribute.{Attribute}
use colony_fs.Fuse.State.{State, get_mapped, change, entry, lookup}

abbrev pub Attributes : Type 0 → Type 0
Attributes W = Policy String (Value Attribute) W

-- A value's key depends on its instruction alone.
abbrev pub IsKeyed : {W : Type 0} → Attributes W → Type 0
IsKeyed policy =
    (v : Value Attribute) (a : Attribute)
    → policy.get_key (record v { mapped = a }) ≡ policy.get_key v

abbrev pub over : (Attribute → Attribute) → Value Attribute → Value Attribute
over f v = record v { mapped = f v.mapped }

module _ {W : Type 0} (policy : Attributes W) where
  -- The value that the sink has, or would make, for a path.
  abbrev pub current : String → State W → Value Attribute
  current key s = or_else (policy.new_pointer key) (view s.metadata (entry_key policy key))

  -- A path is entered, and its attribute changed.
  abbrev pub update : String → (Attribute → Attribute) → Action (State W) (Unit {0})
  update key f = do pair ← entry policy key; change pair f

  ap-IsSound :
      {c d : Cache String (Value Attribute) W} → c ≡ d → IsSound policy c → IsSound policy d
  ap-IsSound e s = rw e at s

  -- `update` succeeds on a sound sink, changes the path's value and no other, and leaves the rest
  -- of the state alone.
  pub update_lem :
      (key : String) (f : Attribute → Attribute) (s : State W)
      → IsKeyed policy
      → IsSound policy s.metadata
      → (s' : State W) × (update key f s ≡ (ok tt, s'))
        × IsSound policy s'.metadata
        × ((j : String)
            → view s'.metadata j
              ≡ ite
                  (string_key.eq (entry_key policy key) j)
                  (some (over f (current key s)))
                  (view s.metadata j))
        × (s'.world ≡ s.world)
        × (s'.chunks ≡ s.chunks)
  unfolding entry change
  update_lem key f s keyed sound =
      let k = entry_key policy key in
      let c : Cache String (Value Attribute) W = record s.metadata { world = s.world } in
      let i = world-IsSound policy s.world s.metadata sound in
      let d = (subscript policy key c).1 in
      let (q, e, there, _, same) = subscript-entry policy key c i in
      let j = subscript-IsSound policy key c i in
      let (v, cell, _) = j.live k q there in
      let at_k : view d k ≡ some v = rw there cell in
      let seen : v ≡ current key s = ground (arith, at_k, view-subscript policy key k c i) in
      let d' : Cache String (Value Attribute) W = record d { heap = put q (over f v) d.heap } in
      let edited : edit q (over f) d ≡ (ok tt, d') = edit_lem policy q (over f) v d cell in
      let kept : IsSound policy d' =
        ap-IsSound (ap (λ (x : Outcome (Unit {0}) × Cache String (Value Attribute) W). x.1) edited)
          (edit-IsSound policy q (over f) d (λ u. keyed u (f u.mapped)) j) in
      let viewed : (n : String) → view d' n ≡ ite (string_key.eq k n) (some (over f v)) (view d n) =
        λ n.
          sym
            (ap (λ (x : Outcome (Unit {0}) × Cache String (Value Attribute) W). view x.1 n) edited)
          ∙ view-edit policy k n q (over f) v d j there cell in
      (
        record s { metadata = d'; world = d.world },
        rw (e, edited) refl,
        kept,
        λ n. ground (arith, viewed n, view-subscript policy key n c i, seen),
        same,
        refl,
      )

  -- What comes after an `update` that succeeds.
  pub update_then :
      {B : Type 0} (key : String) (f : Attribute → Attribute) (rest : Action (State W) B)
      (s s' : State W)
      → update key f s ≡ (ok tt, s')
      → (entry policy key >>= λ pair. change pair f >> rest) s ≡ rest s'
  update_then key f rest s s' e =
      bind_assoc (entry policy key) (λ pair. change pair f) (λ _. rest) s
      ∙ ap (λ (x : Outcome (Unit {0}) × State W). continue x.0 (λ _. rest) x.1) e

  -- A path that the sink has is looked up without a call of the policy.
  pub lookup_lem :
      (key : String) (v : Value Attribute) (s : State W)
      → IsSound policy s.metadata
      → view s.metadata (entry_key policy key) ≡ some v
      → (q : ℕ) × (s' : State W) × (lookup policy key s ≡ (ok q, s'))
        × (get_mapped q s' ≡ (ok v.mapped, s'))
        × (s'.chunks ≡ s.chunks)
        × (s'.world ≡ s.world)
  unfolding lookup get_mapped call new_object
  lookup_lem key v s sound there =
      let k = entry_key policy key in
      elim (Option-cases (find k s.metadata.whole)) [
        | inl absent ↦ let e : none ≡ some v = rw absent at there in cc
        | inr (q, hit) ↦
            let cell : s.metadata.cell q ≡ some v = rw hit at there in
            let c : Cache String (Value Attribute) W = record s.metadata { world = s.world } in
            let d = (new_object policy key c).1 in
            let here : d.cell q ≡ some v = ground (arith, sound.fresh q v) in
            (
              q,
              record s { metadata = d; world = s.world },
              rw (hit, or_miss) refl,
              rw (here, load) refl,
              refl,
              refl,
            )
      ]
