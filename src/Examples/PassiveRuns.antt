-- ===== src/Examples/PassiveRuns.antt =====
-- internal/upstream/passive_health_tracker.go on endpoints that are their own texts.
use dev_gate.Common.{
  ◌+◌, ◌≡◌, refl, String, true, false, List, [], ◌∷◌, none, some, arith, ok, pos, leb, lookup,
  insert, get_elem?, is_some,
}
use dev_gate.Upstream.PassiveHealth.{
  replace, replace_loop, PassiveEndpointHealth, PassiveHealthTracker, PassivePermit, failure, fresh,
  endpoint_available, count_outcome, record_outcome, acquire_permit, next_recovery_delay,
  earliest_loop, fill, new,
}
use dev_gate.Upstream.PassiveHealth.InFlight.{System, Op, enter, finish, step, run, publish}
use dev_gate.Upstream.PassiveHealth.Stale.{ejected_kept, readded_kept}
use dev_gate.Upstream.PassiveHealth.Ejection.{Holds, record_failures, failures_eject}

abbrev own_text : String → String
own_text u = u

abbrev unhurt : PassiveEndpointHealth String
unhurt = fresh 0 "a"

abbrev pub watched : PassiveHealthTracker String
watched = record {
  ordered = "a" ∷ [];
  state_by_target = ("a", unhurt) ∷ [];
  failure_threshold = 1;
  ejection_duration = 10;
  next_address = 1;
}

-- Two requests for the endpoint, the later of which fails first.
abbrev two_requests : List (Op String)
two_requests = enter "a" 0 ∷ enter "a" 1 ∷ finish 0 failure 5 ∷ []

abbrev struck : PassiveEndpointHealth String
struck = record unhurt { ejection_until = some 15; generation = 1 }

abbrev first_permit : PassivePermit
first_permit = record { key = "a"; state = 0; generation = 0 }

abbrev one_left : System String
one_left = run own_text (record { tracker = watched; in_flight = [] }) two_requests

watched_made : new own_text ("a" ∷ []) (pos 1) (pos 10) ≡ ok watched
unfolding new fill lookup insert
watched_made = refl

one_waits : get_elem? one_left.in_flight 0 ≡ some first_permit
unfolding run step acquire_permit record_outcome lookup insert endpoint_available count_outcome
one_waits = refl

struck_held : lookup "a" one_left.tracker.state_by_target ≡ some struck
unfolding run step acquire_permit record_outcome lookup insert endpoint_available count_outcome
struck_held = refl

ejected_kept_example :
    record_outcome one_left.tracker first_permit failure 7 ≡ (one_left.tracker, false)
ejected_kept_example =
    ejected_kept own_text ("a" ∷ []) (pos 1) (pos 10) watched two_requests 0 first_permit struck
      failure 7 watched_made (omega arith) one_waits struck_held refl

abbrev patient : PassiveHealthTracker String
patient = record watched { failure_threshold = 3 }

unhurt_held : lookup "a" patient.state_by_target ≡ some unhurt
unfolding lookup
unhurt_held = refl

abbrev unhurt-Holds : Holds own_text patient first_permit 0
unhurt-Holds = record {
  state = unhurt;
  held = unhurt_held;
  same = refl;
  current = refl;
  counted = refl;
}

failures_eject_example :
    let (quiet, early) = record_failures patient first_permit (2 ∷ 4 ∷ []) in
    let (after, ejected) = record_outcome quiet first_permit failure 6 in
    (early ≡ false)
    × (ejected ≡ true)
    × (is_some (acquire_permit own_text after "a" 15).1 ≡ leb (6 + patient.ejection_duration) 15)
failures_eject_example =
    failures_eject own_text patient "a" first_permit 0 (2 ∷ 4 ∷ []) 6 15 refl unhurt-Holds refl

abbrev recovering : PassiveHealthTracker String
recovering = record watched { state_by_target = ("b", unhurt) ∷ ("a", struck) ∷ [] }

recovers_in_three : next_recovery_delay recovering 12 ≡ some 3
unfolding next_recovery_delay earliest_loop
recovers_in_three = refl

-- A request for the endpoint, which is then taken away.
abbrev taken_away : List (Op String)
taken_away = enter "a" 0 ∷ publish [] ∷ []

abbrev none_left : System String
none_left = run own_text (record { tracker = watched; in_flight = [] }) taken_away

still_waits : get_elem? none_left.in_flight 0 ≡ some first_permit
unfolding run step acquire_permit lookup insert endpoint_available replace replace_loop
still_waits = refl

untracked : lookup "a" none_left.tracker.state_by_target ≡ none
unfolding run step acquire_permit lookup insert endpoint_available replace replace_loop
untracked = refl

readded_kept_example :
    let published = replace own_text none_left.tracker ("a" ∷ []) in
    record_outcome published first_permit failure 7 ≡ (published, false)
readded_kept_example =
    readded_kept own_text ("a" ∷ []) (pos 1) (pos 10) watched taken_away ("a" ∷ []) 0 first_permit
      failure 7 watched_made (omega arith) still_waits untracked
