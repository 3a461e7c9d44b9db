-- ===== src/Examples/PickerRuns.antt =====
-- The pickers and the health sources of internal/upstream on endpoints that are their own texts.
use dev_gate.Common.{ℕ, ◌+◌, ◌≡◌, refl, String, List, [], ◌∷◌, Option, none, some}
use dev_gate.Upstream.RoundRobin.{RoundRobin, serve, serve_cyclic}
use dev_gate.Upstream.RoundRobin
use dev_gate.Upstream.Random.{Random}
use dev_gate.Upstream.Random as Randomly
use dev_gate.Upstream.HealthAwarePicker.{
  HealthAwarePicker, IsAnswer, reading, run, acquire, new, run-IsAnswer,
}
use dev_gate.Upstream.CompositeHealthSource.{
  HealthyEndpointSource, healthy_endpoints, intersect_loop, allows,
}

abbrev own_text : String → String
own_text u = u

abbrev three : RoundRobin String
three = record { snapshot = "a" ∷ "b" ∷ "c" ∷ []; next = 4 }

five_served : serve 5 three ≡ "b" ∷ "c" ∷ "a" ∷ "b" ∷ "c" ∷ []
unfolding serve RoundRobin.acquire
five_served = refl

-- Two endpoints, a request, an outage, a request, and one of them again.
abbrev outage : List (Option (List String))
outage = none ∷ some [] ∷ none ∷ some ("b" ∷ []) ∷ []

run-IsAnswer_example :
    (h : HealthAwarePicker (RoundRobin String)) × (new RoundRobin.picker three ("a" ∷ "b" ∷ [])
      ≡ some h)
    × IsAnswer RoundRobin.picker
        (reading RoundRobin.picker ("a" ∷ "b" ∷ []) outage)
        (acquire RoundRobin.picker (run RoundRobin.picker h outage)).1
run-IsAnswer_example = run-IsAnswer RoundRobin.picker three ("a" ∷ "b" ∷ []) outage

-- A source of random numbers that always draws 0.
abbrev first_drawn : ℕ → ℕ → ℕ × ℕ
first_drawn s n = (s, 0)

abbrev drawing : Random String ℕ
drawing = record { snapshot = "b" ∷ "a" ∷ []; source = 7 }

first_taken : Randomly.acquire first_drawn drawing ≡ some (drawing, "b", tt)
unfolding Randomly.acquire
first_taken = refl

-- Two sources over no state.
abbrev all_members : HealthyEndpointSource String ℕ
all_members s = (s + 1, "c" ∷ "a" ∷ "b" ∷ "a" ∷ [])

abbrev some_members : HealthyEndpointSource String ℕ
some_members s = (s + 1, "a" ∷ "c" ∷ [])

intersected :
    healthy_endpoints own_text (all_members ∷ some_members ∷ []) 0 ≡ some (2, "c" ∷ "a" ∷ "a" ∷ [])
unfolding healthy_endpoints intersect_loop allows
intersected = refl
