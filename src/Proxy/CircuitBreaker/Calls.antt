-- ===== src/Proxy/CircuitBreaker/Calls.antt =====
-- Concurrent calls of RoundTrip in internal/proxy/circuit_breaker.go. The mutex makes acquirePermit
-- and recordOutcome atomic, so a history is a list of these critical sections in any order, with
-- the permits between the two kept in `in_flight`.
use mathlib.Core.Option.{some-injective}
use native.Mathlib.Nat.{add-zero}
use dev_gate.Common.{
  ℕ, zero, suc, ◌+◌, ◌≤◌, ◌<◌, ◌≡◌, refl, subst, Bool, true, false, ◌&&◌, inl, inr, List, [], ◌∷◌,
  Option, none, some, arith, ◌==◌, if◌then◌else◌, word, length, get_elem?, erase_idx, All,
  Option-cases, Bool-cases, ℤ, ok,
}
use dev_gate.Proxy.CircuitBreaker.{
  CircuitState, CircuitOutcome, CircuitPermit, CircuitBreaker, closed, opened, half_open, success,
  rejected_request, new, acquire_permit, record_outcome,
}

pub record System : Type 0 where
  pub breaker : CircuitBreaker
  pub in_flight : List CircuitPermit

pub data Call : Type 0 where
  arrive : ℕ → Call
  finish : ℕ → CircuitOutcome → ℕ → Call

keep_permit : List CircuitPermit → CircuitBreaker × Option CircuitPermit → System
keep_permit ps (t, none) = record {
  breaker = record t { events = rejected_request ∷ t.events };
  in_flight = ps;
}
keep_permit ps (t, some p) = record { breaker = t; in_flight = p ∷ ps }

finish_call : System → ℕ → CircuitOutcome → ℕ → Option CircuitPermit → System
finish_call s i outcome now none = s
finish_call s i outcome now (some p) = record {
  breaker = record_outcome s.breaker p outcome now;
  in_flight = erase_idx s.in_flight i;
}

-- A request arrives, or the request at a place of `in_flight` has its outcome recorded.
unfoldable pub step : System → Call → System
unfolding keep_permit finish_call
step s (arrive now) = keep_permit s.in_flight (acquire_permit s.breaker now)
step s (finish i outcome now) = finish_call s i outcome now (get_elem? s.in_flight i)

unfoldable pub run : System → List Call → System
unfolding step
run s [] = s
run s (c ∷ cs) = run (step s c) cs

-- The permits of probes that the breaker still waits for.
abbrev is_live_probe : ℕ → CircuitPermit → Bool
is_live_probe g p = p.probe && p.generation == g

abbrev pub live_probes : ℕ → List CircuitPermit → ℕ
live_probes g [] = 0
live_probes g (p ∷ ps) = if is_live_probe g p then suc (live_probes g ps) else live_probes g ps

abbrev pub probes_expected : CircuitState → ℕ
probes_expected half_open = 1
probes_expected _ = 0

-- No permit is ahead of the breaker, and a request that is no probe and can still count was let
-- through a closed circuit.
pub record Known (g : ℕ) (st : CircuitState) (p : CircuitPermit) : Type 0 where
  pub issued : p.generation ≤ g
  pub from_closed : p.generation ≡ g → p.probe ≡ false → st ≡ closed

pub record Inv (n : ℕ) (s : System) : Type 0 where
  pub no_wrap : s.breaker.generation ≤ n
  pub known : All (Known s.breaker.generation s.breaker.state) s.in_flight
  pub probes : live_probes s.breaker.generation s.in_flight ≡ probes_expected s.breaker.state

Known-later :
    (g h : ℕ) (st u : CircuitState) (ps : List CircuitPermit)
    → g < h
    → All (Known g st) ps
    → All (Known h u) ps
Known-later g h st u [] lt k = tt
Known-later g h st u (p ∷ ps) lt k = (
  record {
    issued = omega (arith, k.0.issued);
    from_closed = λ e _. absurd (omega (arith, k.0.issued));
  },
  Known-later g h st u ps lt k.1,
)

no_later_probes :
    (g h : ℕ) (st : CircuitState) (ps : List CircuitPermit)
    → g < h
    → All (Known g st) ps
    → live_probes h ps ≡ 0
no_later_probes g h st [] lt k = refl
no_later_probes g h st (p ∷ ps) lt k = ground (arith, k.0.issued, no_later_probes g h st ps lt k.1)

Known-half_open :
    (g : ℕ) (ps : List CircuitPermit) → All (Known g opened) ps → All (Known g half_open) ps
Known-half_open g [] k = tt
Known-half_open g (p ∷ ps) k = (
  record { issued = k.0.issued; from_closed = λ e f. absurd (cc (k.0.from_closed e f)) },
  Known-half_open g ps k.1,
)

erase-Known :
    (g : ℕ) (st : CircuitState) (ps : List CircuitPermit) (i : ℕ)
    → All (Known g st) ps
    → All (Known g st) (erase_idx ps i)
erase-Known g st [] i k = tt
erase-Known g st (p ∷ ps) zero k = k.1
erase-Known g st (p ∷ ps) (suc i) k = (k.0, erase-Known g st ps i k.1)

get-Known :
    (g : ℕ) (st : CircuitState) (ps : List CircuitPermit) (i : ℕ) (p : CircuitPermit)
    → All (Known g st) ps
    → get_elem? ps i ≡ some p
    → Known g st p
get-Known g st [] i p k e = absurd (cc)
get-Known g st (q ∷ ps) zero p k e = subst (Known g st) (some-injective q p e) k.0
get-Known g st (q ∷ ps) (suc i) p k e = get-Known g st ps i p k.1 e

live_probes-erase_idx :
    (g : ℕ) (ps : List CircuitPermit) (i : ℕ) (p : CircuitPermit)
    → get_elem? ps i ≡ some p
    → live_probes g ps ≡ (
        if is_live_probe g p
        then suc (live_probes g (erase_idx ps i))
        else live_probes g (erase_idx ps i))
live_probes-erase_idx g [] i p e = absurd (cc)
live_probes-erase_idx g (q ∷ ps) zero p e = ground arith
live_probes-erase_idx g (q ∷ ps) (suc i) p e = ground (arith, live_probes-erase_idx g ps i p e)

arrive-Inv : (n : ℕ) (s : System) (now : ℕ) → Inv n s → Inv (suc n) (step s (arrive now))
unfolding step acquire_permit
arrive-Inv n s now v =
    ground (arith, v.no_wrap, v.known, v.probes, Known-half_open s.breaker.generation s.in_flight)

finish-Inv :
    (n : ℕ) (s : System) (i : ℕ) (outcome : CircuitOutcome) (now : ℕ) (p : CircuitPermit)
    → suc n < word
    → get_elem? s.in_flight i ≡ some p
    → Inv n s
    → Inv (suc n) (finish_call s i outcome now (some p))
unfolding finish_call record_outcome
finish-Inv n s i outcome now p small e v = ground (
  arith,
  v.no_wrap,
  v.known,
  v.probes,
  get-Known s.breaker.generation s.breaker.state s.in_flight i p v.known e,
  live_probes-erase_idx s.breaker.generation s.in_flight i p e,
  erase-Known s.breaker.generation s.breaker.state s.in_flight i v.known,
  Known-later s.breaker.generation (suc s.breaker.generation) s.breaker.state opened
      (erase_idx s.in_flight i),
  Known-later s.breaker.generation (suc s.breaker.generation) s.breaker.state closed
      (erase_idx s.in_flight i),
  no_later_probes s.breaker.generation (suc s.breaker.generation) s.breaker.state
      (erase_idx s.in_flight i),
)

step-Inv : (n : ℕ) (s : System) (c : Call) → suc n < word → Inv n s → Inv (suc n) (step s c)
unfolding step
step-Inv n s (arrive now) small v = arrive-Inv n s now v
step-Inv n s (finish i outcome now) small v = elim (Option-cases (get_elem? s.in_flight i)) [
  | inl e ↦ rw e (record { no_wrap = omega (arith, v.no_wrap); known = v.known; probes = v.probes })
  | inr (p, e) ↦ rw e (finish-Inv n s i outcome now p small e v)
]

run-Inv :
    (n : ℕ) (s : System) (cs : List Call)
    → n + length cs < word
    → Inv n s
    → Inv (n + length cs) (run s cs)
unfolding run
run-Inv n s [] small v = rw add-zero v
run-Inv n s (c ∷ cs) small v =
    let e : n + suc (length cs) ≡ suc n + length cs = omega arith in
    rw e (run-Inv (suc n) (step s c) cs (omega arith) (step-Inv n s c (omega arith) v))

-- The system before any request.
abbrev pub start : CircuitBreaker → System
start t = record { breaker = t; in_flight = [] }

new-Inv :
    {B O : Type 0} (base : Option B) (threshold timeout : ℤ) (o : Option O) (t : CircuitBreaker)
    → new base threshold timeout o ≡ ok t
    → Inv 0 (start t)
unfolding new
new-Inv base threshold timeout o t e = ground arith

-- In every history of concurrent calls of a new breaker that is shorter than the range of the
-- generation counter, exactly one probe whose outcome counts is in flight while the circuit is
-- half open, and none is in the other states.
pub live_probes-run :
    {B O : Type 0} (base : Option B) (threshold timeout : ℤ) (o : Option O) (t : CircuitBreaker)
    (cs : List Call)
    → new base threshold timeout o ≡ ok t
    → length cs < word
    → live_probes (run (start t) cs).breaker.generation (run (start t) cs).in_flight
      ≡ probes_expected (run (start t) cs).breaker.state
live_probes-run base threshold timeout o t cs e small =
    (run-Inv 0 (start t) cs (omega arith) (new-Inv base threshold timeout o t e)).probes

live_probe_place :
    (g : ℕ) (ps : List CircuitPermit)
    → 0 < live_probes g ps
    → (i : ℕ) × (p : CircuitPermit) × (get_elem? ps i ≡ some p) × (is_live_probe g p ≡ true)
live_probe_place g [] h = elim h [ ]
live_probe_place g (p ∷ ps) h = elim (Bool-cases (is_live_probe g p)) [
  | inl e ↦ (0, p, refl, e)
  | inr e ↦ let (i, q, f, l) = live_probe_place g ps (ground arith) in (suc i, q, f, l)
]

-- What the circuit becomes when its probe has an outcome.
abbrev pub after_probe : CircuitOutcome → CircuitState
after_probe success = closed
after_probe _ = opened

resolve_probe :
    (s : System) (i : ℕ) (p : CircuitPermit) (outcome : CircuitOutcome) (now : ℕ)
    → get_elem? s.in_flight i ≡ some p
    → is_live_probe s.breaker.generation p ≡ true
    → s.breaker.state ≡ half_open
    → (step s (finish i outcome now)).breaker.state ≡ after_probe outcome
unfolding step record_outcome
resolve_probe s i p outcome now e l h = ground arith

-- A half-open circuit never waits in vain: after every history of a new breaker that is shorter
-- than the range of the generation counter, if the circuit is half open, one of the requests in
-- flight closes it by succeeding and opens it by failing or being ignored.
pub half_open_resolves :
    {B O : Type 0} (base : Option B) (threshold timeout : ℤ) (o : Option O) (t : CircuitBreaker)
    (cs : List Call)
    → new base threshold timeout o ≡ ok t
    → length cs < word
    → (run (start t) cs).breaker.state ≡ half_open
    → (i : ℕ) × ((outcome : CircuitOutcome) (now : ℕ)
        → (step (run (start t) cs) (finish i outcome now)).breaker.state ≡ after_probe outcome)
half_open_resolves base threshold timeout o t cs e small h =
    let s = run (start t) cs in
    let v = live_probes-run base threshold timeout o t cs e small in
    let (i, p, f, l) =
      live_probe_place s.breaker.generation s.in_flight (rw (v, h) (omega arith)) in
    (i, λ outcome now. resolve_probe s i p outcome now f l h)
