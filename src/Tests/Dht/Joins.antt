-- ===== src/Tests/Dht/Joins.antt =====
-- Two hosts that join the swarm at the same time.
use colony_fs.Base.{ℕ, zero, suc, String, List, [], ◌∷◌, ◌≡◌, ◌≢◌, refl, arith}
use colony_fs.Base.Map.{Map}
use colony_fs.Base.Outcome.{ok}
use colony_fs.Dht.Values.{Derived, Value, chunkserver_value, new_pointer}
use colony_fs.Intercom.Chunkserver.Joins.{System, idle, joined, listing, Reach}
use colony_fs.Intercom.Chunkserver.Joins.Members.{Between, listing-Between}
use colony_fs.Intercom.Chunkserver.Joins.Lost.{join_lost}
use colony_fs.Tests.Dht.{instructions, text, server, table}
use colony_fs.Tests.Dht.Swarm.{strings, numbers, first_host, amber_world, one_host}

abbrev host_name : ℕ → String
host_name zero = "birch"
host_name (suc i) = "cedar"

abbrev hosts : Derived (List String)
hosts = chunkserver_value strings numbers text

abbrev new_swarm : Value (List String)
new_swarm = new_pointer hosts instructions "swarm"

abbrev quiet : System (Map ℕ String)
quiet = record { world = amber_world; phase = λ i. idle }

abbrev with_cedar : Value (List String)
with_cedar = record { instruction = first_host.instruction; mapped = "amber" ∷ "cedar" ∷ [] }

zero-ne-one : ◌≢◌ {A = ℕ} 0 1
zero-ne-one e = omega arith

join_lost_example :
    (t : System (Map ℕ String)) × Reach server 1 hosts instructions new_swarm host_name quiet t
    × (t.phase 0 ≡ joined)
    × (t.phase 1 ≡ joined)
    × (listing server 1 hosts instructions new_swarm t.world ≡ ok with_cedar)
join_lost_example =
    join_lost server table 0 hosts instructions new_swarm first_host host_name 0 1 quiet zero-ne-one
      refl refl one_host

abbrev both_joined : System (Map ℕ String)
both_joined =
    (join_lost server table 0 hosts instructions new_swarm first_host host_name 0 1 quiet
      zero-ne-one refl refl one_host).0

both_reached : Reach server 1 hosts instructions new_swarm host_name quiet both_joined
both_reached =
    (join_lost server table 0 hosts instructions new_swarm first_host host_name 0 1 quiet
      zero-ne-one refl refl one_host).1

both_listed : listing server 1 hosts instructions new_swarm both_joined.world ≡ ok with_cedar
both_listed =
    (join_lost server table 0 hosts instructions new_swarm first_host host_name 0 1 quiet
      zero-ne-one refl refl one_host).4

listing-Between_example :
    Between host_name ("amber" ∷ []) both_joined.phase ("amber" ∷ "cedar" ∷ [])
listing-Between_example =
    listing-Between server table 0 hosts instructions new_swarm first_host with_cedar host_name
      (λ i. refl) one_host both_reached both_listed
