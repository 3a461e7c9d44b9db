-- ===== src/Upstream/LeastRequests/Balance.antt =====
-- The counts of internal/upstream/least_requests.go through every history.
use mathlib.Core.Option.{some-injective}
use dev_gate.Upstream.LeastRequests.Permits.{
  System, Op, acquires, releases_at, replaces, run, step, Inv, take_permit-Inv, release-Inv,
  holding_none, allocated_later,
}
use dev_gate.Upstream.LeastRequests.Replacement.{rebuild-Grown, group_allocated, waiting_nil}
use dev_gate.Upstream.LeastRequests.Selection.{index, acquire-First}
use native.Mathlib.Nat.{mod-lt, add-zero}
use dev_gate.Common.{
  ℕ, suc, ◌+◌, ◌%◌, ◌≤◌, ◌<◌, ◌≡◌, ◌≢◌, sym, subst, ◌∙◌, ltb, ltb→lt, String, inl, inr, List, [],
  ◌∷◌, none, some, arith, length, get_elem?, word, length-set, Option-cases, Bool-cases, lookup,
}
use dev_gate.Upstream.LeastRequests.{
  Endpoint, LeastRequests, Release, Draft, take_permit, acquire, release, group, replace, new,
}

-- The system of a new picker, before any request.
abbrev pub start : {Url : Type 0} → LeastRequests Url → System Url
start l = record { picker = l; releases = [] }

module _ {Url : Type 0} (url_string : Url → String) where
  replace-Inv :
      (l l' : LeastRequests Url) (rs : List Release) (us : List Url)
      → replace url_string l us ≡ some l'
      → Inv (record { picker = l; releases = rs })
      → Inv (record { picker = l'; releases = rs }) × (0 < length l'.endpoints)
  unfolding replace lookup
  replace-Inv l l' rs [] e v = absurd (cc)
  replace-Inv l l' rs (u ∷ us) e v =
      let d : Draft Url = record {
        memory = l.memory;
        next = l.next;
        existing = group url_string l.memory [] l.endpoints;
      } in
      let (g, h, n) = rebuild-Grown url_string d (u ∷ us) (
        group_allocated url_string l.memory l.next [] l.endpoints v.endpoints_allocated
          (λ k. waiting_nil url_string l.next k)) in
      subst
        (λ (m : LeastRequests Url).
          Inv (record { picker = m; releases = rs }) × (0 < length m.endpoints))
        (some-injective _ l' e)
        (
          record {
            exact = λ a lt. elim (Bool-cases (ltb a l.next)) [
              | inl old ↦ g.kept a (ltb→lt a l.next old) ∙ v.exact a (ltb→lt a l.next old)
              | inr fresh ↦
                  g.zero_new a (ground arith) lt
                  ∙ sym (holding_none a l.next rs (ground arith) v.releases_allocated)
            ];
            endpoints_allocated = h;
            releases_allocated = allocated_later l.next _ rs g.grows v.releases_allocated;
          },
          omega (arith, n),
        )

  release-endpoints :
      (l : LeastRequests Url) (r : Release) → (release l r).0.endpoints ≡ l.endpoints
  unfolding release
  release-endpoints l r = ground arith

  abbrev Within : ℕ → System Url → Type 0
  Within n s = Inv s × (length s.releases ≤ n) × (0 < length s.picker.endpoints)

  acquires-Within :
      (n : ℕ) (s : System Url)
      → suc n < word
      → Within n s
      → Within (suc n) (step url_string s acquires)
  unfolding step take_permit
  acquires-Within n s small (v, le, ne) =
      let (m, lt, f, e) = acquire-First s.picker ne in
      let i =
        index s.picker.memory s.picker.endpoints (s.picker.cursor % length s.picker.endpoints) m in
      rw (e, step)
        (
          take_permit-Inv s.picker s.releases i (grind (arith, mod-lt)) (omega arith) v,
          omega arith,
          ne,
        )

  releases-Within :
      (n : ℕ) (s : System Url) (i : ℕ)
      → suc n < word
      → Within n s
      → Within (suc n) (step url_string s (releases_at i))
  unfolding step
  releases-Within n s i small (v, le, ne) = elim (Option-cases (get_elem? s.releases i)) [
    | inl e ↦ rw (e, step) (v, omega arith, ne)
    | inr (r, e) ↦
        rw (e, step)
          (
            release-Inv s.picker s.releases i r e (omega arith) v,
            omega (arith, length-set s.releases i (release s.picker r).1),
            rw (release-endpoints s.picker r) ne,
          )
  ]

  replaces-Within :
      (n : ℕ) (s : System Url) (us : List Url)
      → Within n s
      → Within (suc n) (step url_string s (replaces us))
  unfolding step
  replaces-Within n s us (v, le, ne) = elim (Option-cases (replace url_string s.picker us)) [
    | inl e ↦ rw (e, step) (v, omega arith, ne)
    | inr (l, e) ↦
        let (w, p) = replace-Inv s.picker l s.releases us e v in rw (e, step) (w, omega arith, p)
  ]

  step-Within :
      (n : ℕ) (s : System Url) (o : Op Url)
      → suc n < word
      → Within n s
      → Within (suc n) (step url_string s o)
  step-Within n s acquires small w = acquires-Within n s small w
  step-Within n s (releases_at i) small w = releases-Within n s i small w
  step-Within n s (replaces us) small w = replaces-Within n s us w

  run-Within :
      (n : ℕ) (s : System Url) (os : List (Op Url))
      → n + length os < word
      → Within n s
      → Within (n + length os) (run url_string s os)
  unfolding run
  run-Within n s [] small w = rw add-zero w
  run-Within n s (o ∷ os) small w =
      let e : n + suc (length os) ≡ suc n + length os = omega arith in
      rw e (
        run-Within (suc n) (step url_string s o) os (omega arith)
          (step-Within n s o (omega arith) w))

  new-Within :
      (initial : ℕ → Endpoint Url) (us : List Url) (l : LeastRequests Url)
      → new url_string initial us ≡ some l
      → Within 0 (start l)
  unfolding new
  new-Within initial us l e =
      let (v, p) =
        replace-Inv (record { memory = initial; next = 0; endpoints = []; cursor = 0 }) l [] us e
          (record {
            exact = λ a lt. elim lt [ ];
            endpoints_allocated = tt;
            releases_allocated = tt;
          }) in
      (v, omega arith, p)

  -- After every history of requests, releases, repeated releases and replacements of a new picker
  -- that is shorter than the range of the counters, the next request is granted an endpoint.
  pub acquire-run :
      (initial : ℕ → Endpoint Url) (us : List Url) (l : LeastRequests Url) (os : List (Op Url))
      → new url_string initial us ≡ some l
      → length os < word
      → acquire (run url_string (start l) os).picker ≢ none
  acquire-run initial us l os e small h =
      let (m, lt, f, q) =
        acquire-First (run url_string (start l) os).picker
          (run-Within 0 (start l) os (omega arith) (new-Within initial us l e)).2 in
      absurd (cc (q))
