-- ===== src/Upstream/PassiveHealth/Permits.antt =====
-- Requests in flight and the passive health of internal/upstream/passive_health_tracker.go.
use text.Mathlib.Text.{◌==◌ as str_eq}
use text.Mathlib.TextEquality.{eq_iff}
use dev_gate.Common.{
  ℕ, suc, ◌+◌, ◌≤◌, ◌<◌, ◌≡◌, subst, String, true, inl, inr, List, [], ◌∷◌, some, arith,
  if◌then◌else◌, word, lookup, insert, lookup-insert, erase_idx, All, All-erase_idx, is_some,
  Bool-cases,
}
use dev_gate.Upstream.PassiveHealth.{
  PassiveEndpointHealth, PassiveMap, PassivePermit, PassiveOutcome, endpoint_available,
  count_outcome,
}

-- A permit of the state at a key is not ahead of it, and is behind it while it is ejected.
pub record Older {Url : Type 0} (k : String) (s : PassiveEndpointHealth Url) (p : PassivePermit)
    : Type 0 where
  pub issued : p.key ≡ k → p.state ≡ s.address → p.generation ≤ s.generation
  pub ejected :
      p.key ≡ k
      → p.state ≡ s.address
      → is_some s.ejection_until ≡ true
      → p.generation < s.generation

-- The generation that a state can reach with no outcome recorded.
abbrev pub spent : {Url : Type 0} → PassiveEndpointHealth Url → ℕ
spent s = if is_some s.ejection_until then s.generation + 1 else s.generation

-- What holds of a map whose states have spent at most n, with the addresses below `next` given out.
pub record MapInv {Url : Type 0} (n next : ℕ) (m : PassiveMap Url) (ps : List PassivePermit)
    : Type 0 where
  pub older :
      (k : String) (s : PassiveEndpointHealth Url) → lookup k m ≡ some s → All (Older k s) ps
  pub bounded : (k : String) (s : PassiveEndpointHealth Url) → lookup k m ≡ some s → spent s ≤ n
  pub placed : (k : String) (s : PassiveEndpointHealth Url) → lookup k m ≡ some s → s.address < next
  pub allocated : All (λ (p : PassivePermit). p.state < next) ps

allocated_later :
    (m n : ℕ) (ps : List PassivePermit)
    → m ≤ n
    → All (λ (p : PassivePermit). p.state < m) ps
    → All (λ (p : PassivePermit). p.state < n) ps
allocated_later m n [] le h = tt
allocated_later m n (p ∷ ps) le h = (omega (arith, h.0), allocated_later m n ps le h.1)

module _ {Url : Type 0} where
  pub insert-MapInv :
      (n next : ℕ) (m : PassiveMap Url) (ps : List PassivePermit) (k : String)
      (s : PassiveEndpointHealth Url)
      → All (Older k s) ps
      → spent s ≤ n
      → s.address < next
      → MapInv n next m ps
      → MapInv n next (insert k s m) ps
  insert-MapInv n next m ps k s o b a v = record {
    older = λ j u e. elim (Bool-cases (str_eq k j)) [
      | inl same ↦
          let ek : k ≡ j = (eq_iff k j).0 same in
          let es : s ≡ u = ground (arith, lookup-insert k j s m) in
          subst (λ (w : PassiveEndpointHealth Url). All (Older j w) ps) es
            (subst (λ (i : String). All (Older i s) ps) ek o)
      | inr other ↦ v.older j u (ground (arith, lookup-insert k j s m))
    ];
    bounded = λ j u e. ground (arith, lookup-insert k j s m, v.bounded j u);
    placed = λ j u e. ground (arith, lookup-insert k j s m, v.placed j u);
    allocated = v.allocated;
  }

  pub later-MapInv :
      (n later next after : ℕ) (m : PassiveMap Url) (ps : List PassivePermit)
      → n ≤ later
      → next ≤ after
      → MapInv n next m ps
      → MapInv later after m ps
  later-MapInv n later next after m ps ln le v = record {
    older = v.older;
    bounded = λ k s e. omega (arith, v.bounded k s e);
    placed = λ k s e. omega (arith, v.placed k s e);
    allocated = allocated_later next after ps le v.allocated;
  }

  -- A state after its ejection was checked.
  pub available-Older :
      (k : String) (s : PassiveEndpointHealth Url) (now n : ℕ) (ps : List PassivePermit)
      → spent s ≤ n
      → n < word
      → All (Older k s) ps
      → All (Older k (endpoint_available s now).0) ps
  unfolding endpoint_available
  available-Older k s now n [] b small o = tt
  available-Older k s now n (p ∷ ps) b small o = (
    record {
      issued = λ e f. ground (arith, o.0.issued e);
      ejected = λ e f g. ground (arith, o.0.ejected e);
    },
    available-Older k s now n ps b small o.1,
  )

  pub count-Older :
      (threshold duration : ℕ) (k : String) (s : PassiveEndpointHealth Url) (o : PassiveOutcome)
      (now n : ℕ) (ps : List PassivePermit)
      → spent s ≤ n
      → suc n < word
      → All (Older k s) ps
      → All (Older k (count_outcome threshold duration s o now).0) ps
  unfolding count_outcome
  count-Older threshold duration k s o now n [] b small h = tt
  count-Older threshold duration k s o now n (p ∷ ps) b small h = (
    record {
      issued = λ e f. ground (arith, h.0.issued e);
      ejected = λ e f g. ground (arith, h.0.issued e, h.0.ejected e);
    },
    count-Older threshold duration k s o now n ps b small h.1,
  )

  -- What changes of a state's generation and address.
  pub available_bounds :
      (s : PassiveEndpointHealth Url) (now n : ℕ)
      → spent s ≤ n
      → n < word
      → (spent (endpoint_available s now).0 ≤ n)
        × ((endpoint_available s now).0.address ≡ s.address)
  unfolding endpoint_available
  available_bounds s now n b small = ground arith

  pub count_bounds :
      (threshold duration : ℕ) (s : PassiveEndpointHealth Url) (o : PassiveOutcome) (now n : ℕ)
      → spent s ≤ n
      → suc n < word
      → (spent (count_outcome threshold duration s o now).0 ≤ suc (suc n))
        × ((count_outcome threshold duration s o now).0.address ≡ s.address)
  unfolding count_outcome
  count_bounds threshold duration s o now n b small = ground arith

  pub erase-MapInv :
      (n next : ℕ) (m : PassiveMap Url) (ps : List PassivePermit) (i : ℕ)
      → MapInv n next m ps
      → MapInv n next m (erase_idx ps i)
  erase-MapInv n next m ps i v = record {
    older = λ k s e. All-erase_idx (Older k s) ps i (v.older k s e);
    bounded = v.bounded;
    placed = v.placed;
    allocated = All-erase_idx (λ (p : PassivePermit). p.state < next) ps i v.allocated;
  }
