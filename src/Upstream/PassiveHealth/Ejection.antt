-- ===== src/Upstream/PassiveHealth/Ejection.antt =====
-- The ejection of internal/upstream/passive_health_tracker.go: what opens it, and when it ends.
use text.Mathlib.TextEquality.{eq_iff}
use dev_gate.Common.{
  ℕ, suc, ◌+◌, ◌≡◌, refl, sym, ap, ◌∙◌, ◌<◌, String, Bool, true, false, ◌||◌, List, [], ◌∷◌, some,
  arith, leb, lookup, insert, lookup-insert, length, is_some,
}
use dev_gate.Upstream.PassiveHealth.{
  PassiveEndpointHealth, PassiveHealthTracker, PassivePermit, failure, next_generation,
  acquire_permit, record_outcome, count_outcome, endpoint_available,
}

-- Failures recorded under one permit, at the given instants, and whether one of them ejected.
unfoldable pub record_failures :
    {Url : Type 0}
    → PassiveHealthTracker Url
    → PassivePermit
    → List ℕ
    → PassiveHealthTracker Url × Bool
record_failures t p [] = (t, false)
record_failures t p (now ∷ times) =
    let (t', ejected) = record_outcome t p failure now in
    let (t'', later) = record_failures t' p times in (t'', ejected || later)

module _ {Url : Type 0} (url_string : Url → String) where
  -- What a tracker holds under the key of a permit.
  pub record Holds (t : PassiveHealthTracker Url) (p : PassivePermit) (n : ℕ) : Type 0 where
    pub state : PassiveEndpointHealth Url
    pub held : lookup p.key t.state_by_target ≡ some state
    pub same : state.address ≡ p.state
    pub current : state.generation ≡ p.generation
    pub counted : state.consecutive_failures ≡ n

  counted_as :
      (t : PassiveHealthTracker Url) (p : PassivePermit) (m n : ℕ)
      → m ≡ n
      → Holds t p m
      → Holds t p n
  counted_as t p m n e h = record {
    state = h.state;
    held = h.held;
    same = h.same;
    current = h.current;
    counted = h.counted ∙ e;
  }

  failure-Holds :
      (t : PassiveHealthTracker Url) (p : PassivePermit) (n now : ℕ)
      → suc n < t.failure_threshold
      → Holds t p n
      → let (t', ejected) = record_outcome t p failure now in
        Holds t' p (suc n)
        × (ejected ≡ false)
        × (t'.failure_threshold ≡ t.failure_threshold)
        × (t'.ejection_duration ≡ t.ejection_duration)
  unfolding record_outcome count_outcome
  failure-Holds t p n now few h =
      let s = record h.state { consecutive_failures = h.state.consecutive_failures + 1 } in
      let tested : record_outcome t p failure now
          ≡ (record t { state_by_target = insert p.key s t.state_by_target }, false) =
        ground (arith, h.held, h.same, h.current, h.counted) in
      rw tested (
        record {
          state = s;
          held = ground (arith, lookup-insert p.key p.key s t.state_by_target, eq_iff p.key p.key);
          same = h.same;
          current = h.current;
          counted = omega (arith, h.counted);
        },
        refl,
        refl,
        refl,
      )

  record_failures-Holds :
      (t : PassiveHealthTracker Url) (p : PassivePermit) (n : ℕ) (times : List ℕ)
      → n + length times < t.failure_threshold
      → Holds t p n
      → let (t', ejected) = record_failures t p times in
        Holds t' p (n + length times)
        × (ejected ≡ false)
        × (t'.failure_threshold ≡ t.failure_threshold)
        × (t'.ejection_duration ≡ t.ejection_duration)
  unfolding record_failures
  record_failures-Holds t p n [] few h =
      (counted_as t p n (n + 0) (omega arith) h, refl, refl, refl)
  record_failures-Holds t p n (now ∷ times) few h =
      let one = failure-Holds t p n now (omega (arith, few)) h in
      let all =
        record_failures-Holds (record_outcome t p failure now).0 p (suc n) times
          (ground (arith, few, one.2)) one.0 in
      (
        counted_as (record_failures t p (now ∷ times)).0 p (suc n + length times)
            (n + suc (length times)) (omega arith) all.0,
        ground (arith, one.1, all.1),
        all.2 ∙ one.2,
        all.3 ∙ one.3,
      )

  last_failure :
      (t : PassiveHealthTracker Url) (u : Url) (p : PassivePermit) (n now later : ℕ)
      → p.key ≡ url_string u
      → Holds t p n
      → suc n ≡ t.failure_threshold
      → let (after, ejected) = record_outcome t p failure now in
        (ejected ≡ true)
        × (is_some (acquire_permit url_string after u later).1
            ≡ leb (now + t.ejection_duration) later)
  unfolding record_outcome count_outcome acquire_permit endpoint_available
  last_failure t u p n now later k h full =
      let s = record h.state {
        ejection_until = some (now + t.ejection_duration);
        consecutive_failures = 0;
        generation = next_generation h.state.generation;
      } in
      let tested : record_outcome t p failure now
          ≡ (record t { state_by_target = insert p.key s t.state_by_target }, true) =
        ground (arith, h.held, h.same, h.current, h.counted, full) in
      let read : lookup (url_string u) (insert p.key s t.state_by_target) ≡ some s = ground (
        arith,
        lookup-insert p.key (url_string u) s t.state_by_target,
        eq_iff p.key (url_string u),
        k,
      ) in
      rw tested (refl, rw (read, acquire_permit) (ground arith))

  -- The endpoint of a request whose failures before it were `n` is ejected by the failure that
  -- completes the threshold, and by none before it. From then on a request for it is refused until
  -- the ejection's duration is over, and is let through from that instant on.
  pub failures_eject :
      (t : PassiveHealthTracker Url) (u : Url) (p : PassivePermit) (n : ℕ) (times : List ℕ)
      (now later : ℕ)
      → p.key ≡ url_string u
      → Holds t p n
      → suc (n + length times) ≡ t.failure_threshold
      → let (quiet, early) = record_failures t p times in
        let (after, ejected) = record_outcome quiet p failure now in
        (early ≡ false)
        × (ejected ≡ true)
        × (is_some (acquire_permit url_string after u later).1
            ≡ leb (now + t.ejection_duration) later)
  failures_eject t u p n times now later k h full =
      let quiet = record_failures-Holds t p n times (omega (arith, full)) h in
      let last =
        last_failure (record_failures t p times).0 u p (n + length times) now later k quiet.0
          (full ∙ sym quiet.2) in
      (quiet.1, last.0, last.1 ∙ ap (λ d. leb (now + d) later) quiet.3)
