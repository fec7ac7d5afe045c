-- ===== src/Intercom/Chunkserver/Joins.antt =====
-- intercom/chunkserver_harmony.cpp: hosts that join one swarm at the same time. `init` asks the
-- hash table for the members and later writes the longer list; other hosts may do either in
-- between.
pub mod Members
pub mod Lost
use colony_fs.Base.{ℕ, String, List, ◌≡◌, ite, ℕ_discrete}
use colony_fs.Base.Outcome.{Outcome, ok}
use colony_fs.Dht.Values.{Archive, Instruction, Derived, Value, append}
use colony_fs.Dht.Harmony.{Server, get_pair, set_pair}
use colony_fs.Intercom.Chunkserver.{or_new}

-- Where a host stands in `init`.
pub data Phase : Type 0 where
  idle : Phase
  holding : Value (List String) → Phase
  joined : Phase

pub record System (W : Type 0) : Type 0 where
  pub world : W
  pub phase : ℕ → Phase

abbrev pub update : (ℕ → Phase) → ℕ → Phase → ℕ → Phase
update phase i p j = ite (ℕ_discrete i j) p (phase j)

-- The members that a host goes on with; `info` is the new value of the swarm.
abbrev pub listing :
    {W : Type 0}
    → Server W
    → ℕ
    → Derived (List String)
    → Archive Instruction
    → Value (List String)
    → W
    → Outcome (Value (List String))
listing server fuel hosts instructions info w =
    or_new (get_pair server fuel hosts instructions info w).0 info

-- `name i` is the host name of host `i`.
module _ {W : Type 0} (server : Server W) (fuel : ℕ) (hosts : Derived (List String))
    (instructions : Archive Instruction) (info : Value (List String)) (name : ℕ → String) where
  pub data Step (s : System W) : System W → Type 0 where
    ask :
        (i : ℕ) (v : Value (List String))
        → s.phase i ≡ idle
        → listing server fuel hosts instructions info s.world ≡ ok v
        → Step s (record {
          world = (get_pair server fuel hosts instructions info s.world).1;
          phase = update s.phase i (holding v);
        })
    commit :
        (i : ℕ) (v : Value (List String))
        → s.phase i ≡ holding v
        → Step s (record {
          world = (set_pair server fuel hosts instructions (append (name i) v) s.world).1;
          phase = update s.phase i joined;
        })

  pub data Reach (s : System W) : System W → Type 0 where
    here : Reach s s
    next : {t u : System W} → Reach s t → Step t u → Reach s u
