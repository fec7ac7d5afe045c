-- ===== src/Intercom/Chunkserver/Joins/Members.antt =====
-- What a swarm lists after any interleaving of joins.
use mathlib.Core.Path.{subst}
use colony_fs.Base.{
  ℕ, suc, String, List, [], ◌∷◌, ◌++◌, ◌≡◌, ◌≢◌, sym, ◌∙◌, ap, ◌⊎◌, inl, inr, ℕ_discrete, arith,
}
use colony_fs.Base.Outcome.{Outcome, ok}
use colony_fs.Dht.Values.{Archive, Instruction, Derived, Value, append}
use colony_fs.Dht.Harmony.{Server, get_pair, set_pair}
use colony_fs.Dht.Harmony.Table.{Table}
use colony_fs.Intercom.Chunkserver.{or_new}
use colony_fs.Intercom.Chunkserver.Swarm.{
  get_pair-set_pair, get_pair-get_pair, or_new-instruction, append_lem,
}
use colony_fs.Intercom.Chunkserver.Joins.{
  Phase, idle, holding, joined, System, update, listing, ask, commit, Reach, here, next,
}

abbrev pub In : String → List String → Type 0
In x [] = ⊥
In x (y ∷ ys) = (x ≡ y) ⊎ In x ys

In-append : (x : String) (xs ys : List String) → In x xs → In x (xs ++ ys)
In-append x [] ys h = elim h [ ]
In-append x (y ∷ xs) ys (inl e) = inl e
In-append x (y ∷ xs) ys (inr h) = inr (In-append x xs ys h)

In-append_one : (x y : String) (xs : List String) → In x (xs ++ (y ∷ [])) → In x xs ⊎ (x ≡ y)
In-append_one x y [] (inl e) = inr e
In-append_one x y [] (inr h) = elim h [ ]
In-append_one x y (z ∷ xs) (inl e) = inl (inl e)
In-append_one x y (z ∷ xs) (inr h) = elim (In-append_one x y xs h) [
  | inl i ↦ inl (inr i)
  | inr e ↦ inr e
]

-- A host of that name has joined.
abbrev pub HasJoined : (ℕ → String) → (ℕ → Phase) → String → Type 0
HasJoined name phase x = (i : ℕ) × (name i ≡ x) × (phase i ≡ joined)

-- A list with all the first members, and with no other names than theirs and those of hosts that
-- have joined.
abbrev pub Between : (ℕ → String) → List String → (ℕ → Phase) → List String → Type 0
Between name first phase xs =
    ((x : String) → In x first → In x xs)
    × ((x : String) → In x xs → In x first ⊎ HasJoined name phase x)

update_self : (phase : ℕ → Phase) (i : ℕ) (p : Phase) → update phase i p i ≡ p
update_self phase i p = ground arith

HasJoined-update :
    (name : ℕ → String) (phase : ℕ → Phase) (i : ℕ) (p : Phase) (x : String)
    → phase i ≢ joined
    → HasJoined name phase x
    → HasJoined name (update phase i p) x
HasJoined-update name phase i p x h (j, e, d) = (j, e, ground arith)

Between-update :
    (name : ℕ → String) (first xs : List String) (phase : ℕ → Phase) (i : ℕ) (p : Phase)
    → phase i ≢ joined
    → Between name first phase xs
    → Between name first (update phase i p) xs
Between-update name first xs phase i p h (f, g) =
    (f, λ x m. elim (g x m) [ inl a ↦ inl a | inr b ↦ inr (HasJoined-update name phase i p x h b) ])

Between-joined :
    (name : ℕ → String) (first xs : List String) (phase : ℕ → Phase) (i : ℕ)
    → phase i ≢ joined
    → Between name first phase xs
    → Between name first (update phase i joined) (xs ++ (name i ∷ []))
Between-joined name first xs phase i h b =
    let (f, g) = Between-update name first xs phase i joined h b in
    (
      λ x m. In-append x xs (name i ∷ []) (f x m),
      λ x m. elim (In-append_one x (name i) xs m) [
        | inl a ↦ g x a
        | inr e ↦ inr (i, sym e, update_self phase i joined)
      ],
    )

update_cases :
    (phase : ℕ → Phase) (i j : ℕ) (p q : Phase) → update phase i p j ≡ q → (p ≡ q) ⊎ (phase j ≡ q)
update_cases phase i j p q e = elim (ℕ_discrete i j) [
  | yes same ↦ inl (ground arith)
  | no differ ↦ inr (ground arith)
]

ok_inj : {A : Type 0} {a b : A} → ok a ≡ ok b → a ≡ b
ok_inj e = cc

joined-ne : (v : Value (List String)) → joined ≢ holding v
joined-ne v e = cc

idle-ne : (v : Value (List String)) → idle ≢ holding v
idle-ne v e = cc

module _ {W : Type 0} (server : Server W) (table : Table server) (n : ℕ)
    (hosts : Derived (List String)) (instructions : Archive Instruction)
    (info : Value (List String)) (name : ℕ → String) (first : List String) where
  abbrev IsHeld : (ℕ → Phase) → Value (List String) → Type 0
  IsHeld phase v = (info.instruction ≡ v.instruction) × Between name first phase v.mapped

  -- What a list that was read, and the lists that the hosts hold, name.
  record Inv (s : System W) : Type 0 where
    read :
        (v : Value (List String))
        → listing server (suc n) hosts instructions info s.world ≡ ok v
        → Between name first s.phase v.mapped
    held : (i : ℕ) (v : Value (List String)) → s.phase i ≡ holding v → IsHeld s.phase v

  ask-Inv :
      (s : System W) (i : ℕ) (v : Value (List String))
      → s.phase i ≡ idle
      → listing server (suc n) hosts instructions info s.world ≡ ok v
      → Inv s
      → Inv (record {
        world = (get_pair server (suc n) hosts instructions info s.world).1;
        phase = update s.phase i (holding v);
      })
  ask-Inv s i v at e inv =
      let away : s.phase i ≢ joined = λ q. cc in
      let again =
        ap (λ (r : Outcome (Value (List String))). or_new r info)
          (get_pair-get_pair server table instructions hosts n n info s.world) in
      record {
        read = λ u f.
            Between-update name first u.mapped s.phase i (holding v) away
              (inv.read u (sym again ∙ f));
        held = λ j u f. elim (update_cases s.phase i j (holding v) (holding u) f) [
          | inl same ↦
              let v-u : v ≡ u = cc in
              subst (IsHeld (update s.phase i (holding v))) v-u (
                or_new-instruction server table instructions hosts n info v s.world e,
                Between-update name first v.mapped s.phase i (holding v) away (inv.read v e),
              )
          | inr other ↦
              let (k, b) = inv.held j u other in
              (k, Between-update name first u.mapped s.phase i (holding v) away b)
        ];
      }

  commit-Inv :
      (s : System W) (i : ℕ) (v : Value (List String))
      → s.phase i ≡ holding v
      → Inv s
      → Inv (record {
        world = (set_pair server (suc n) hosts instructions (append (name i) v) s.world).1;
        phase = update s.phase i joined;
      })
  commit-Inv s i v at inv =
      let away : s.phase i ≢ joined = λ q. cc in
      let (k, b) = inv.held i v at in
      let longer = append (name i) v in
      let same : info.instruction ≡ longer.instruction = rw (append_lem (name i) v) k in
      let (_, stored) =
        get_pair-set_pair server table instructions hosts n n longer info s.world same in
      let listed = ap (λ (r : Outcome (Value (List String))). or_new r info) stored in
      record {
        read = λ u f.
            let e : longer ≡ u = ok_inj (sym listed ∙ f) in
            let m : u.mapped ≡ v.mapped ++ (name i ∷ []) =
              ap (λ (x : Value (List String)). x.mapped) (sym e ∙ append_lem (name i) v) in
            subst (Between name first (update s.phase i joined)) (sym m)
              (Between-joined name first v.mapped s.phase i away b);
        held = λ j u f. elim (update_cases s.phase i j joined (holding u) f) [
          | inl clash ↦ absurd (joined-ne u clash)
          | inr other ↦
              let (l, c) = inv.held j u other in
              (l, Between-update name first u.mapped s.phase i joined away c)
        ];
      }

  Reach-Inv :
      {s t : System W} → Inv s → Reach server (suc n) hosts instructions info name s t → Inv t
  Reach-Inv inv here = inv
  Reach-Inv inv (next r (ask i v at e)) = ask-Inv _ i v at e (Reach-Inv inv r)
  Reach-Inv inv (next r (commit i v at)) = commit-Inv _ i v at (Reach-Inv inv r)

-- Whatever the order in which hosts that join a swarm ask for the members and write the longer
-- list, over a table: a list that is read at any time has all the members that were there before
-- the first of them began, and no names but theirs and those of hosts whose join has ended.
pub listing-Between :
    {W : Type 0} (server : Server W) (table : Table server) (n : ℕ) (hosts : Derived (List String))
    (instructions : Archive Instruction) (info v u : Value (List String)) (name : ℕ → String)
    {s t : System W}
    → ((i : ℕ) → s.phase i ≡ idle)
    → listing server (suc n) hosts instructions info s.world ≡ ok v
    → Reach server (suc n) hosts instructions info name s t
    → listing server (suc n) hosts instructions info t.world ≡ ok u
    → Between name v.mapped t.phase u.mapped
listing-Between server table n hosts instructions info v u name {s} all_idle before r after =
    let start : Inv server table n hosts instructions info name v.mapped s = record {
      read = λ x e.
          let same : v ≡ x = ok_inj (sym before ∙ e) in
          subst (λ (y : Value (List String)). Between name v.mapped s.phase y.mapped) same
            ((λ z m. m), (λ z m. inl m));
      held = λ i x e. absurd (idle-ne x (sym (all_idle i) ∙ e));
    } in
    (Reach-Inv server table n hosts instructions info name v.mapped start r).read u after
