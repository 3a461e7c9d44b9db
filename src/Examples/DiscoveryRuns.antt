-- ===== src/Examples/DiscoveryRuns.antt =====
-- internal/discovery on addresses that are numbers and URLs that are their hosts.
use dev_gate.Common.{
  ℕ, ◌≡◌, refl, ◌↔◌, true, false, String, List, [], ◌∷◌, ◌++◌, Option, none, some, arith, map, Text,
  codes, text_eq, ok, ◌==◌,
}
use dev_gate.Discovery.Dns.{Addressing, distinct, endpoint, expand, is_seen, resolve, resolve_lem}
use dev_gate.Discovery.Watcher.{Lookup, run}
use dev_gate.Discovery.Published.{last_published, reports, run_published}
use dev_gate.Upstream.EndpointMembership
use dev_gate.Upstream.RoundRobin.{RoundRobin}
use dev_gate.Upstream.RoundRobin
use dev_gate.Upstream.EndpointCoordinator.{EndpointCoordinator, apply}
use dev_gate.Upstream.EndpointCoordinator.Reading.{ActiveInv}
use dev_gate.Examples.CoordinatorRuns.{coordinator, tracker-Inv}
use dev_gate.Examples.PoolRuns.{own_text}

abbrev numbered : Addressing Text ℕ
numbered = record {
  scheme = λ u. codes "http";
  hostname = λ u. u;
  port = λ u. [];
  with_host = λ u host. host;
  join_host_port = λ host port. host ++ codes ":" ++ port;
  addr_text = λ a. a ∷ [];
  addr_eq = λ a b. a == b;
}

numbered_eq : (a b : ℕ) → (numbered.addr_eq a b ≡ true) ↔ (a ≡ b)
numbered_eq a b = (λ e. ground (arith, e), λ e. ground (arith, e))

abbrev one_and_two : Text → Option (List ℕ)
one_and_two name = some (b'1' ∷ b'2' ∷ b'1' ∷ [])

resolve_lem_example :
    (chosen : List ℕ) × (resolve numbered false one_and_two (codes "users")
      ≡ ok (map (endpoint numbered (codes "users")) chosen))
    × (distinct numbered chosen ≡ true)
    × ((a : ℕ) → is_seen numbered chosen a ≡ is_seen numbered (b'1' ∷ b'2' ∷ b'1' ∷ []) a)
unfolding text_eq
resolve_lem_example =
    resolve_lem numbered numbered_eq one_and_two (codes "users") (b'1' ∷ b'2' ∷ b'1' ∷ []) refl refl
      refl

two_resolved :
    resolve numbered false one_and_two (codes "users") ≡ ok (codes "1:80" ∷ codes "2:80" ∷ [])
unfolding resolve expand text_eq
two_resolved = refl

-- A lookup, a failed one, another one, and one that the end of the context meets.
abbrev pub lookups : List (Lookup String)
lookups =
    record { answer = some ("a" ∷ "d" ∷ []); done = false; now = 3 }
    ∷ record { answer = none; done = false; now = 4 }
    ∷ record { answer = some ("d" ∷ []); done = false; now = 5 }
    ∷ record { answer = some []; done = true; now = 6 }
    ∷ []

run_published_example :
    (c : EndpointCoordinator String (RoundRobin String)) × (run
        (apply own_text RoundRobin.picker)
        coordinator
        lookups
      ≡ some (c, reports lookups))
    × (EndpointMembership.healthy_endpoints c.membership
        ≡ last_published (EndpointMembership.healthy_endpoints coordinator.membership) lookups)
    × ActiveInv own_text c.active_tracker
run_published_example = run_published own_text RoundRobin.picker coordinator lookups tracker-Inv

last_is_kept : last_published ("x" ∷ []) lookups ≡ "d" ∷ []
last_is_kept = refl
