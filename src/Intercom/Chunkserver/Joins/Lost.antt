-- ===== src/Intercom/Chunkserver/Joins/Lost.antt =====
-- A join that another join undoes.
use colony_fs.Base.{ℕ, suc, String, List, [], ◌∷◌, ◌++◌, ◌≡◌, ◌≢◌, ◌∙◌, ap, arith}
use colony_fs.Base.Outcome.{Outcome, ok}
use colony_fs.Dht.Values.{Archive, Instruction, Derived, Value, append}
use colony_fs.Dht.Harmony.{Server, get_pair, set_pair}
use colony_fs.Dht.Harmony.Table.{Table}
use colony_fs.Intercom.Chunkserver.{or_new}
use colony_fs.Intercom.Chunkserver.Swarm.{
  get_pair-set_pair, get_pair-get_pair, or_new-instruction, append_lem,
}
use colony_fs.Intercom.Chunkserver.Joins.{
  idle, holding, joined, System, update, listing, ask, commit, Reach, here, next,
}

-- Over a table, where two hosts have not begun, both may ask before either writes: then both joins
-- end, and the swarm's list is what it was, and then the second host to write: the first is lost.
pub join_lost :
    {W : Type 0} (server : Server W) (table : Table server) (n : ℕ) (hosts : Derived (List String))
    (instructions : Archive Instruction) (info v : Value (List String)) (name : ℕ → String)
    (i j : ℕ) (s : System W)
    → i ≢ j
    → s.phase i ≡ idle
    → s.phase j ≡ idle
    → listing server (suc n) hosts instructions info s.world ≡ ok v
    → (t : System W) × Reach server (suc n) hosts instructions info name s t
      × (t.phase i ≡ joined)
      × (t.phase j ≡ joined)
      × (listing server (suc n) hosts instructions info t.world
          ≡ ok (record { instruction = v.instruction; mapped = v.mapped ++ (name j ∷ []) }))
join_lost server table n hosts instructions info v name i j s apart i_idle j_idle before =
    let asked = get_pair-get_pair server table instructions hosts n n info in
    let w1 = (get_pair server (suc n) hosts instructions info s.world).1 in
    let w2 = (get_pair server (suc n) hosts instructions info w1).1 in
    let w3 = (set_pair server (suc n) hosts instructions (append (name i) v) w2).1 in
    let w4 = (set_pair server (suc n) hosts instructions (append (name j) v) w3).1 in
    let again =
      ap (λ (r : Outcome (Value (List String))). or_new r info) (asked s.world) ∙ before in
    let p1 = update s.phase i (holding v) in
    let p2 = update p1 j (holding v) in
    let p3 = update p2 i joined in
    let p4 = update p3 j joined in
    let k = or_new-instruction server table instructions hosts n info v s.world before in
    let same : info.instruction ≡ (append (name j) v).instruction = rw (append_lem (name j) v) k in
    let (_, stored) =
      get_pair-set_pair server table instructions hosts n n (append (name j) v) info w3 same in
    let listed = ap (λ (r : Outcome (Value (List String))). or_new r info) stored in
    let run1 = next here (ask i v i_idle before) in
    let run2 = next run1 (ask j v (ground arith) again) in
    let run3 = next run2 (commit i v (ground arith)) in
    (
      record { world = w4; phase = p4 },
      next run3 (commit j v (ground arith)),
      ground arith,
      ground arith,
      listed ∙ ap ok (append_lem (name j) v),
    )
