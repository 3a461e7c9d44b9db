-- ===== src/Upstream/LeastRequests/Replacement.antt =====
-- The memory across Replace of internal/upstream/least_requests.go: what is allocated, and the counts.
use text.Mathlib.Text.{◌==◌ as str_eq}
use dev_gate.Common.{
  ℕ, suc, ◌+◌, ◌≤◌, ◌<◌, ◌≡◌, refl, ap, ◌∙◌, ltb, ltb→lt, String, inl, inr, List, [], ◌∷◌, ◌++◌,
  arith, length, All, Bool-cases, lookup, insert,
}
use dev_gate.Upstream.LeastRequests.{
  Endpoint, Draft, active, waiting, waiting-insert, group, reuse, rebuild,
}

All-snoc :
    (n : ℕ) (as_ : List ℕ) (a : ℕ) → All (λ b. b < n) as_ → a < n → All (λ b. b < n) (as_ ++ a ∷ [])
All-snoc n [] a h lt = (lt, tt)
All-snoc n (b ∷ as_) a h lt = (h.0, All-snoc n as_ a h.1 lt)

All-mono : (m n : ℕ) (as_ : List ℕ) → m ≤ n → All (λ a. a < m) as_ → All (λ a. a < n) as_
All-mono m n [] le h = tt
All-mono m n (a ∷ as_) le h = (omega arith, All-mono m n as_ le h.1)

module _ {Url : Type 0} (url_string : Url → String) where
  -- The waiting pointers are allocated.
  abbrev pub Allocated : Draft Url → Type 0
  Allocated d = (k : String) → All (λ a. a < d.next) (waiting k d.existing)

  pub waiting_nil : (n : ℕ) (k : String) → All (λ a. a < n) (waiting k [])
  unfolding waiting lookup
  waiting_nil n k = tt

  -- What a part of the second loop of Replace does to the memory.
  pub record Grown (d e : Draft Url) : Type 0 where
    pub grows : d.next ≤ e.next
    pub kept : (a : ℕ) → a < d.next → active e.memory a ≡ active d.memory a
    pub zero_new : (a : ℕ) → d.next ≤ a → a < e.next → active e.memory a ≡ 0

  reuse-Grown :
      (d : Draft Url) (u : Url) (matching : List ℕ)
      → All (λ a. a < d.next) matching
      → Grown d (reuse url_string d u matching).0
  unfolding reuse
  reuse-Grown d u [] h = record {
    grows = omega arith;
    kept = λ a lt. ground arith;
    zero_new = λ a le lt. ground arith;
  }
  reuse-Grown d u (b ∷ matching) h = record {
    grows = omega arith;
    kept = λ a lt. ground arith;
    zero_new = λ a le lt. absurd (omega arith);
  }

  reuse-Allocated :
      (d : Draft Url) (u : Url) (matching : List ℕ)
      → All (λ a. a < d.next) matching
      → Allocated d
      → Allocated (reuse url_string d u matching).0
        × ((reuse url_string d u matching).1 < (reuse url_string d u matching).0.next)
  unfolding reuse
  reuse-Allocated d u [] h al =
      (λ k. All-mono d.next (d.next + 1) (waiting k d.existing) (omega arith) (al k), omega arith)
  reuse-Allocated d u (b ∷ matching) h al = (
    λ k. elim (Bool-cases (str_eq (url_string u) k)) [
      | inl e ↦ rw (waiting-insert (url_string u) k matching d.existing, e) h.1
      | inr e ↦ rw (waiting-insert (url_string u) k matching d.existing, e) (al k)
    ],
    h.0,
  )

  Grown-trans : (c d e : Draft Url) → Grown c d → Grown d e → Grown c e
  Grown-trans c d e g h = record {
    grows = omega (arith, g.grows, h.grows);
    kept = λ a lt. h.kept a (omega (arith, g.grows)) ∙ g.kept a lt;
    zero_new = λ a le lt. elim (Bool-cases (ltb a d.next)) [
      | inl low ↦ h.kept a (ltb→lt a d.next low) ∙ g.zero_new a le (ltb→lt a d.next low)
      | inr high ↦ h.zero_new a (ground arith) lt
    ];
  }

  pub rebuild-Grown :
      (d : Draft Url) (us : List Url)
      → Allocated d
      → let (e, as_) = rebuild url_string d us in
        Grown d e × All (λ a. a < e.next) as_ × (length as_ ≡ length us)
  unfolding rebuild
  rebuild-Grown d [] al = (
    record { grows = omega arith; kept = λ a lt. refl; zero_new = λ a le lt. absurd (omega arith) },
    tt,
    refl,
  )
  rebuild-Grown d (u ∷ us) al =
      let matching = waiting (url_string u) d.existing in
      let one = reuse-Allocated d u matching (al (url_string u)) al in
      let e = (reuse url_string d u matching).0 in
      let (g, h, n) = rebuild-Grown e us one.0 in
      (
        Grown-trans d e (rebuild url_string e us).0 (reuse-Grown d u matching (al (url_string u)))
            g,
        (omega (arith, one.1, g.grows), h),
        ap suc n,
      )

  pub group_allocated :
      (memory : ℕ → Endpoint Url) (n : ℕ) (existing : List (String × List ℕ)) (as_ : List ℕ)
      → All (λ a. a < n) as_
      → ((k : String) → All (λ a. a < n) (waiting k existing))
      → (k : String) → All (λ a. a < n) (waiting k (group url_string memory existing as_))
  unfolding group
  group_allocated memory n existing [] h al k = al k
  group_allocated memory n existing (a ∷ as_) h al k =
      let key = url_string (memory a).target in
      group_allocated memory n (insert key (waiting key existing ++ a ∷ []) existing) as_ h.1
        (λ j. elim (Bool-cases (str_eq key j)) [
          | inl e ↦
              rw (waiting-insert key j (waiting key existing ++ a ∷ []) existing, e)
                (All-snoc n (waiting key existing) a (al key) h.0)
          | inr e ↦ rw (waiting-insert key j (waiting key existing ++ a ∷ []) existing, e) (al j)
        ])
        k
