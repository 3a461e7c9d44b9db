-- ===== src/Upstream/LeastRequests/Served.antt =====
-- The picker of internal/upstream/least_requests.go keeps the promise that health_aware_picker.go
-- asks of a picker.
use mathlib.Core.List.{Memᴰ}
use native.Mathlib.Nat.{mod-lt}
use dev_gate.Common.{
  ℕ, suc, zero, ◌+◌, ◌%◌, ◌<◌, ◌≡◌, refl, ap, String, List, [], ◌∷◌, some, arith, length, All, inl,
  inr, Bool-cases, ◌==◌, word,
}
use dev_gate.Upstream.Picker.{ReplaceablePicker}
use dev_gate.Upstream.LeastRequests.{
  Endpoint, LeastRequests, Release, Draft, place, write, acquire, take_permit, reuse, rebuild,
  group, replace, waiting,
}
use dev_gate.Upstream.LeastRequests.Selection.{index, acquire-First}

module _ {Url : Type 0} where
  -- The targets at addresses are among endpoints.
  abbrev pub Among : List Url → (ℕ → Endpoint Url) → List ℕ → Type 0
  Among us memory as_ = All (λ a. Memᴰ (memory a).target us) as_

  -- A part of the second loop of Replace leads no target away from the endpoints.
  abbrev Keeps : List Url → (ℕ → Endpoint Url) → (ℕ → Endpoint Url) → Type 0
  Keeps us before after = (b : ℕ) → Memᴰ (before b).target us → Memᴰ (after b).target us

  write-Keeps :
      (us : List Url) (memory : ℕ → Endpoint Url) (a : ℕ) (e : Endpoint Url)
      → Memᴰ e.target us
      → Keeps us memory (write memory a e)
  write-Keeps us memory a e i b h = elim (Bool-cases (a == b)) [
    | inl same ↦ rw same i
    | inr other ↦ rw other h
  ]

  written : (memory : ℕ → Endpoint Url) (a : ℕ) (e : Endpoint Url) → write memory a e a ≡ e
  written memory a e = ground arith

  Among-Keeps :
      (us : List Url) (before after : ℕ → Endpoint Url) (as_ : List ℕ)
      → Keeps us before after
      → Among us before as_
      → Among us after as_
  Among-Keeps us before after [] k h = tt
  Among-Keeps us before after (a ∷ as_) k h = (k a h.0, Among-Keeps us before after as_ k h.1)

  Among-place :
      (us : List Url) (memory : ℕ → Endpoint Url) (as_ : List ℕ) (i : ℕ)
      → i < length as_
      → Among us memory as_
      → Memᴰ (memory (place as_ i)).target us
  Among-place us memory [] i lt h = absurd (omega (arith, lt))
  Among-place us memory (a ∷ as_) zero lt h = h.0
  Among-place us memory (a ∷ as_) (suc i) lt h = Among-place us memory as_ i (omega (arith, lt)) h.1

module _ {Url : Type 0} (url_string : Url → String) (us : List Url) where
  reuse-Keeps :
      (d : Draft Url) (u : Url) (matching : List ℕ)
      → Memᴰ u us
      → Keeps us d.memory (reuse url_string d u matching).0.memory
        × Memᴰ
            ((reuse url_string d u matching).0.memory (reuse url_string d u matching).1).target
            us
  unfolding reuse
  reuse-Keeps d u [] i =
      let e : Endpoint Url = record { target = u; active_requests = 0 } in
      (write-Keeps us d.memory d.next e i, rw (written d.memory d.next e) i)
  reuse-Keeps d u (state ∷ matching) i =
      let e : Endpoint Url = record (d.memory state) { target = u } in
      (write-Keeps us d.memory state e i, rw (written d.memory state e) i)

  rebuild-Keeps :
      (d : Draft Url) (ts : List Url)
      → All (λ t. Memᴰ t us) ts
      → let (e, as_) = rebuild url_string d ts in
        Keeps us d.memory e.memory × Among us e.memory as_ × (length as_ ≡ length ts)
  unfolding rebuild
  rebuild-Keeps d [] i = (λ b h. h, tt, refl)
  rebuild-Keeps d (t ∷ ts) i =
      let (d₁, a) = reuse url_string d t (waiting (url_string t) d.existing) in
      let (k, m) = reuse-Keeps d t (waiting (url_string t) d.existing) i.0 in
      let (k', among, n) = rebuild-Keeps d₁ ts i.1 in
      (λ b h. k' b (k b h), (k' a m, among), ap suc n)

All-Memᴰ :
    {U : Type 0} (us vs : List U) → ((u : U) → Memᴰ u us → Memᴰ u vs) → All (λ t. Memᴰ t vs) us
All-Memᴰ [] vs h = tt
All-Memᴰ (u ∷ us) vs h = (h u (Memᴰ.head refl), All-Memᴰ us vs (λ v i. h v (Memᴰ.tail i)))

module _ {Url : Type 0} (url_string : Url → String) where
  -- The endpoints in use have their targets among the given ones, and there is one.
  abbrev pub Holds : LeastRequests Url → List Url → Type 0
  Holds l us = Among us l.memory l.endpoints × (0 < length l.endpoints)

  pub replace-Holds :
      (l : LeastRequests Url) (u : Url) (us : List Url)
      → (l' : LeastRequests Url) × (replace url_string l (u ∷ us) ≡ some l') × Holds l' (u ∷ us)
  unfolding replace
  replace-Holds l u us =
      let d : Draft Url = record {
        memory = l.memory;
        next = l.next;
        existing = group url_string l.memory [] l.endpoints;
      } in
      let (k, among, n) =
        rebuild-Keeps url_string (u ∷ us) d (u ∷ us) (All-Memᴰ (u ∷ us) (u ∷ us) (λ v i. i)) in
      (_, refl, (among, rw n (omega arith)))

  pub acquire-Holds :
      (l : LeastRequests Url) (us : List Url)
      → Holds l us
      → (l' : LeastRequests Url) × (v : Url) × (r : Release) × (acquire l ≡ some (l', v, r))
        × Memᴰ v us
        × Holds l' us
  unfolding take_permit
  acquire-Holds l us (among, left) =
      let (m, lt, f, e) = acquire-First l left in
      let i = index l.memory l.endpoints (l.cursor % length l.endpoints) m in
      let a = place l.endpoints i in
      let taken : Endpoint Url = record (l.memory a) {
        active_requests = ((l.memory a).active_requests + 1) % word;
      } in
      let here = Among-place us l.memory l.endpoints i (mod-lt _ left) among in
      (
        _,
        _,
        _,
        e,
        here,
        (
          Among-Keeps us l.memory (write l.memory a taken) l.endpoints
              (write-Keeps us l.memory a taken here) among,
          left,
        ),
      )

  abbrev pub picker : ReplaceablePicker Url Release (LeastRequests Url)
  picker = record {
    acquire = acquire;
    replace = replace url_string;
    Serves = Holds;
    replace_serves = replace-Holds;
    acquire_serves = acquire-Holds;
  }
