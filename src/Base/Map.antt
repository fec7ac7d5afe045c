-- ===== src/Base/Map.antt =====
-- `std::map`: the entries in the order of their keys. A new key goes before the first key that
-- it precedes.
use colony_fs.Base.Key.{Key, string_key}
use colony_fs.Base.{
  ◌≡◌, refl, ◌≢◌, ite, Option, none, some, List, [], ◌∷◌, arith, if◌then◌else◌, inl, inr,
  Option-cases,
}

abbrev pub Map : Type 0 → Type 0 → Type 0
Map K V = List (K × V)

module _ {K V : Type 0} ⦃o : Key K⦄ where
  -- `m.find(k)`
  unfoldable pub find : K → Map K V → Option V
  find k [] = none
  find k ((j, v) ∷ m) = ite (o.eq j k) (some v) (find k m)

  -- A new key goes before the first key that it precedes.
  unfoldable pub place : K → V → Map K V → Map K V
  place k v [] = (k, v) ∷ []
  place k v ((j, w) ∷ m) = if o.before k j then (k, v) ∷ (j, w) ∷ m else (j, w) ∷ place k v m

  unfoldable pub replace : K → V → Map K V → Map K V
  replace k v [] = []
  replace k v ((j, w) ∷ m) = ite (o.eq j k) ((j, v) ∷ m) ((j, w) ∷ replace k v m)

  -- `m[k] = v`
  unfoldable pub insert : K → V → Map K V → Map K V
  unfolding find place replace
  insert k v m = elim (find k m) [ none ↦ place k v m | some _ ↦ replace k v m ]

  -- `m.erase(k)`
  unfoldable pub erase : K → Map K V → Map K V
  erase k [] = []
  erase k ((j, v) ∷ m) = ite (o.eq j k) (erase k m) ((j, v) ∷ erase k m)

  find-place :
      (j k : K) (v : V) (m : Map K V)
      → find k m ≡ none
      → find j (place k v m) ≡ ite (o.eq k j) (some v) (find j m)
  unfolding find place
  find-place j k v [] e = refl
  find-place j k v ((i, w) ∷ m) e = ground (arith, find-place j k v m)

  find-replace :
      (j k : K) (u v : V) (m : Map K V)
      → find k m ≡ some u
      → find j (replace k v m) ≡ ite (o.eq k j) (some v) (find j m)
  unfolding find replace
  find-replace j k u v [] e = cc
  find-replace j k u v ((i, w) ∷ m) e = ground (arith, find-replace j k u v m)

  pub find-insert :
      (j k : K) (v : V) (m : Map K V) → find j (insert k v m) ≡ ite (o.eq k j) (some v) (find j m)
  unfolding insert
  find-insert j k v m = elim (Option-cases (find k m)) [
    | inl e ↦ rw (e, insert) (find-place j k v m e)
    | inr (u, e) ↦ rw (e, insert) (find-replace j k u v m e)
  ]

  pub find-erase : (j k : K) (m : Map K V) → find j (erase k m) ≡ ite (o.eq k j) none (find j m)
  unfolding find erase
  find-erase j k [] = ground arith
  find-erase j k ((i, w) ∷ m) = ground (arith, find-erase j k m)

  pub find-insert_self : (k : K) (v : V) (m : Map K V) → find k (insert k v m) ≡ some v
  find-insert_self k v m = ground (arith, find-insert k k v m)

  pub find-insert_ne : (j k : K) (v : V) (m : Map K V) → k ≢ j → find j (insert k v m) ≡ find j m
  find-insert_ne j k v m h = ground (arith, find-insert j k v m)

  erase-missing : (k : K) (m : Map K V) → find k m ≡ none → erase k m ≡ m
  unfolding find erase
  erase-missing k [] e = refl
  erase-missing k ((j, w) ∷ m) e = ground (arith, erase-missing k m)

  erase-place : (k : K) (v : V) (m : Map K V) → find k m ≡ none → erase k (place k v m) ≡ m
  unfolding find erase place
  erase-place k v [] e = ground arith
  erase-place k v ((j, w) ∷ m) e = ground (arith, erase-place k v m, erase-missing k m)

  pub erase-insert : (k : K) (v : V) (m : Map K V) → find k m ≡ none → erase k (insert k v m) ≡ m
  unfolding insert
  erase-insert k v m e = rw (e, insert) (erase-place k v m e)

  -- No key stands twice, which every map that was built by `insert` and `erase` has.
  abbrev pub Unique : Map K V → Type 0
  Unique [] = Unit {0}
  Unique ((k, v) ∷ m) = (find k m ≡ none) × Unique m

  place-Unique : (k : K) (v : V) (m : Map K V) → find k m ≡ none → Unique m → Unique (place k v m)
  unfolding place find
  place-Unique k v [] e u = (refl, tt)
  place-Unique k v ((j, w) ∷ m) e u = ground (arith, place-Unique k v m, find-place j k v m)

  replace-Unique :
      (k : K) (u v : V) (m : Map K V) → find k m ≡ some u → Unique m → Unique (replace k v m)
  unfolding replace find
  replace-Unique k u v [] e d = tt
  replace-Unique k u v ((j, w) ∷ m) e d =
      ground (arith, replace-Unique k u v m, find-replace j k u v m)

  pub insert-Unique : (k : K) (v : V) (m : Map K V) → Unique m → Unique (insert k v m)
  unfolding insert
  insert-Unique k v m d = elim (Option-cases (find k m)) [
    | inl e ↦ rw (e, insert) (place-Unique k v m e d)
    | inr (u, e) ↦ rw (e, insert) (replace-Unique k u v m e d)
  ]

  pub erase-Unique : (k : K) (m : Map K V) → Unique m → Unique (erase k m)
  unfolding erase
  erase-Unique k [] d = tt
  erase-Unique k ((j, v) ∷ m) d = ground (arith, erase-Unique k m, find-erase j k m)
