-- ===== src/Upstream/LeastRequests.antt =====
-- internal/upstream/least_requests.go. The endpoints are shared by pointers with the release
-- functions that Acquire returns, so a picker has its memory, a function from addresses, of which
-- those below `next` are allocated; `initial` is the memory before the first allocation. A release
-- function is the address that it closes over, with its flag `released`. The mutex makes each
-- operation one step. Slices are read at `% len`, which is in range.
pub mod Selection
pub mod Permits
pub mod Replacement
pub mod Balance
pub mod Served
use text.Mathlib.Text.{◌==◌ as str_eq}
use dev_gate.Common.{
  ◌≡◌, arith, lookup-insert, ℕ, zero, suc, ◌+◌, ◌-◌, ◌%◌, String, Bool, true, false, List, [], ◌∷◌,
  ◌++◌, Option, none, some, if◌then◌else◌, ltb, ◌==◌, length, get_or, word, lookup, insert,
}

pub record Endpoint (Url : Type 0) : Type 0 where
  pub target : Url
  pub active_requests : ℕ  -- uint64

pub record LeastRequests (Url : Type 0) : Type 0 where
  pub memory : ℕ → Endpoint Url
  pub next : ℕ
  pub endpoints : List ℕ
  pub cursor : ℕ

pub record Release : Type 0 where
  pub selected : ℕ
  pub released : Bool

-- A missing key of a Go map reads as the nil slice.
or_nil : Option (List ℕ) → List ℕ
or_nil none = []
or_nil (some as_) = as_

unfoldable pub waiting : String → List (String × List ℕ) → List ℕ
unfolding or_nil
waiting k m = or_nil (lookup k m)

pub waiting-insert :
    (k j : String) (as_ : List ℕ) (m : List (String × List ℕ))
    → waiting j (insert k as_ m) ≡ (if str_eq k j then as_ else waiting j m)
unfolding waiting
waiting-insert k j as_ m = rw (lookup-insert k j as_ m) (ground arith)

-- The pointer at an index.
abbrev pub place : List ℕ → ℕ → ℕ
place endpoints i = get_or endpoints i 0

-- What the second loop of Replace changes.
pub record Draft (Url : Type 0) : Type 0 where
  pub memory : ℕ → Endpoint Url
  pub next : ℕ
  pub existing : List (String × List ℕ)

module _ {Url : Type 0} where
  abbrev pub write : (ℕ → Endpoint Url) → ℕ → Endpoint Url → ℕ → Endpoint Url
  write memory a e b = if a == b then e else memory b

  abbrev pub active : (ℕ → Endpoint Url) → ℕ → ℕ
  active memory a = (memory a).active_requests

  -- The loop of Acquire: the rounds left, the offset, the index selected so far.
  unfoldable pub scan : (ℕ → Endpoint Url) → List ℕ → ℕ → ℕ → ℕ → ℕ → ℕ
  scan memory endpoints start zero offset best = best
  scan memory endpoints start (suc rounds) offset best =
      scan memory endpoints start rounds (offset + 1) (
        if ltb (active memory (place endpoints ((start + offset) % length endpoints)))
          (active memory (place endpoints best))
        then (start + offset) % length endpoints
        else best)

  unfoldable pub take_permit : LeastRequests Url → ℕ → LeastRequests Url × Url × Release
  take_permit l best =
      let a = place l.endpoints best in
      (
        record l {
          memory =
              write l.memory a
                (record (l.memory a) { active_requests = (active l.memory a + 1) % word });
          cursor = (best + 1) % length l.endpoints;
        },
        (l.memory a).target,
        record { selected = a; released = false },
      )

  -- `none` is the panic of `% 0`.
  unfoldable pub acquire : LeastRequests Url → Option (LeastRequests Url × Url × Release)
  unfolding take_permit
  acquire l =
      if length l.endpoints == 0
      then none
      else (let start = l.cursor % length l.endpoints in
          some (take_permit l (scan l.memory l.endpoints start (length l.endpoints - 1) 1 start)))

  unfoldable pub release : LeastRequests Url → Release → LeastRequests Url × Release
  release l r = if r.released then (l, r) else (
    record l {
      memory = write l.memory r.selected (record (l.memory r.selected) {
        active_requests = (active l.memory r.selected + word - 1) % word;
      });
    },
    record r { released = true },
  )

module _ {Url : Type 0} (url_string : Url → String) where
  -- The first loop of Replace.
  unfoldable pub group :
      (ℕ → Endpoint Url) → List (String × List ℕ) → List ℕ → List (String × List ℕ)
  group memory existing [] = existing
  group memory existing (a ∷ rest) =
      let key = url_string (memory a).target in
      group memory (insert key (waiting key existing ++ a ∷ []) existing) rest

  -- One round of it, on the list `matching`; the address is that of replacement[i].
  unfoldable pub reuse : Draft Url → Url → List ℕ → Draft Url × ℕ
  reuse d target [] = (
    record d {
      memory = write d.memory d.next (record { target = target; active_requests = 0 });
      next = d.next + 1;
    },
    d.next,
  )
  reuse d target (state ∷ matching) = (
    record d {
      memory = write d.memory state (record (d.memory state) { target = target });
      existing = insert (url_string target) matching d.existing;
    },
    state,
  )

  unfoldable pub rebuild : Draft Url → List Url → Draft Url × List ℕ
  unfolding reuse
  rebuild d [] = (d, [])
  rebuild d (target ∷ rest) =
      let (d₁, a) = reuse d target (waiting (url_string target) d.existing) in
      let (d₂, as_) = rebuild d₁ rest in (d₂, a ∷ as_)

  -- `none` is the error "no endpoints provided".
  unfoldable pub replace : LeastRequests Url → List Url → Option (LeastRequests Url)
  unfolding group rebuild
  replace l [] = none
  replace l (u ∷ us) =
      let (d, replacement) =
        rebuild
          (record { memory = l.memory; next = l.next; existing = group l.memory [] l.endpoints })
          (u ∷ us) in
      some (record {
        memory = d.memory;
        next = d.next;
        endpoints = replacement;
        cursor = l.cursor % length replacement;
      })

  unfoldable pub new : (ℕ → Endpoint Url) → List Url → Option (LeastRequests Url)
  unfolding replace
  new initial us = replace (record { memory = initial; next = 0; endpoints = []; cursor = 0 }) us
