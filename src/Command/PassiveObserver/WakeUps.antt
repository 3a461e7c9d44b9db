-- ===== src/Command/PassiveObserver/WakeUps.antt =====
-- The waiting of Run in cmd/devgate/passive_health_observer.go, among the requests and the refreshes
-- that use the tracker at the same time.
use dev_gate.Common.{
  ℕ, suc, ◌+◌, ◌-◌, ◌≤◌, ◌<◌, ◌≡◌, refl, ◌⊎◌, inl, inr, Bool, true, false, String, List, [], Option,
  none, some, arith, if◌then◌else◌, lookup, Option-cases, Bool-cases,
}
use dev_gate.Upstream.PassiveHealth.{
  PassiveMap, PassiveHealthTracker, PassivePermit, PassiveOutcome, next_recovery_delay,
  healthy_endpoints, replace, acquire_permit, record_outcome,
}
use dev_gate.Upstream.PassiveHealth.Recovery.{IsEarliest, next_recovery_delay-IsEarliest}
use dev_gate.Command.PassiveObserver.Ends.{
  end_of, NoneNew, enter-NoneNew, read-NoneNew, publish-NoneNew, count-NoneNew, NotEjected-end,
  NotBefore-end,
}

-- Where Run is: before it asks for the delay, or in a select, entered at an instant and with a timer
-- that is due at another or with none.
pub data RunState : Type 0 where
  asking : RunState
  waiting : (asked : ℕ) → (due : Option ℕ) → RunState

-- The calls of RecordEjection that have not sent to `wake` yet are counted.
pub record Observed (Url : Type 0) : Type 0 where
  pub tracker : PassiveHealthTracker Url
  pub place : RunState
  pub wake : Bool
  pub telling : ℕ

abbrev due_after : ℕ → Option ℕ → Option ℕ
due_after now none = none
due_after now (some delay) = some (now + delay)

module _ {Url : Type 0} (url_string : Url → String) where
  -- A step of a request, of a refresh, of a publication, of RecordEjection or of Run.
  pub data Step : Observed Url → Observed Url → Type 0 where
    enter :
        (s : Observed Url) (u : Url) (now : ℕ)
        → Step s (record s { tracker = (acquire_permit url_string s.tracker u now).0 })
    count :
        (s : Observed Url) (p : PassivePermit) (outcome : PassiveOutcome) (now : ℕ)
        → Step s (record s {
          tracker = (record_outcome s.tracker p outcome now).0;
          telling = if (record_outcome s.tracker p outcome now).1 then suc s.telling else s.telling;
        })
    read :
        (s : Observed Url) (now : ℕ)
        → Step s (record s { tracker = (healthy_endpoints url_string s.tracker now).0 })
    publish :
        (s : Observed Url) (us : List Url)
        → Step s (record s { tracker = replace url_string s.tracker us })
    tell :
        (s : Observed Url) (n : ℕ)
        → s.telling ≡ suc n
        → Step s (record s { wake = true; telling = n })
    ask :
        (s : Observed Url) (now : ℕ)
        → s.place ≡ asking
        → Step s
            (record s { place = waiting now (due_after now (next_recovery_delay s.tracker now)) })
    woken :
        (s : Observed Url) (asked : ℕ) (due : Option ℕ)
        → s.place ≡ waiting asked due
        → s.wake ≡ true
        → Step s (record s { place = asking; wake = false })
    fire :
        (s : Observed Url) (asked due now : ℕ)
        → s.place ≡ waiting asked (some due)
        → due ≤ now
        → Step s (record s { place = asking })

  -- What is reached from a tracker before Run starts.
  pub data Reach (t : PassiveHealthTracker Url) : Observed Url → Type 0 where
    start : Reach t (record { tracker = t; place = asking; wake = false; telling = 0 })
    later : {s s' : Observed Url} → Reach t s → Step s s' → Reach t s'

-- Every ejection ends when the timer is due or later, or the timer is due at once.
abbrev Covered : {Url : Type 0} → ℕ → Option ℕ → PassiveMap Url → Type 0
Covered asked due m =
    (k : String) (until : ℕ)
    → end_of k m ≡ some until
    → (e : ℕ) × (due ≡ some e) × ((e ≤ until) ⊎ (e ≡ asked))

-- While Run waits, its timer covers all ejections, or it will be woken.
abbrev Awake : {Url : Type 0} → Observed Url → Type 0
Awake s =
    (asked : ℕ) (due : Option ℕ)
    → s.place ≡ waiting asked due
    → (s.wake ≡ true) ⊎ ((0 < s.telling) ⊎ Covered asked due s.tracker.state_by_target)

module _ {Url : Type 0} where
  NoneNew-Covered :
      (asked : ℕ) (due : Option ℕ) (old new : PassiveMap Url)
      → NoneNew old new
      → Covered asked due old
      → Covered asked due new
  NoneNew-Covered asked due old new h c k until e = c k until (h k until e)

  -- A step of others that ejects nothing keeps Run awake.
  NoneNew-Awake :
      (s : Observed Url) (t : PassiveHealthTracker Url)
      → NoneNew s.tracker.state_by_target t.state_by_target
      → Awake s
      → Awake (record s { tracker = t })
  NoneNew-Awake s t h v asked due e = elim (v asked due e) [
    | inl w ↦ inl w
    | inr (inl n) ↦ inr (inl n)
    | inr (inr c) ↦ inr (inr (NoneNew-Covered asked due _ _ h c))
  ]

module _ {Url : Type 0} (url_string : Url → String) where
  ask-Covered :
      (t : PassiveHealthTracker Url) (now : ℕ)
      → Covered now (due_after now (next_recovery_delay t now)) t.state_by_target
  unfolding IsEarliest
  ask-Covered t now k until e =
      let (o, earliest, q) = next_recovery_delay-IsEarliest t now in
      elim (Option-cases o) [
        | inl n ↦
            absurd (omega (arith, NotEjected-end t.state_by_target k until (rw n at earliest) e))
        | inr (first, n) ↦
            let le = NotBefore-end t.state_by_target k first until (rw n at earliest).1 e in
            (now + (first - now), rw (q, n) refl, ground (arith, le))
      ]

  count-Awake :
      (s : Observed Url) (p : PassivePermit) (outcome : PassiveOutcome) (now : ℕ)
      → Awake s
      → Awake (record s {
        tracker = (record_outcome s.tracker p outcome now).0;
        telling = if (record_outcome s.tracker p outcome now).1 then suc s.telling else s.telling;
      })
  count-Awake s p outcome now v asked due e =
      elim (Bool-cases (record_outcome s.tracker p outcome now).1) [
        | inl ejected ↦ inr (inl (ground (arith, ejected)))
        | inr quiet ↦
            let h = count-NoneNew url_string s.tracker p outcome now quiet in
            elim (NoneNew-Awake s (record_outcome s.tracker p outcome now).0 h v asked due e) [
              | inl w ↦ inl w
              | inr (inl n) ↦ inr (inl (ground (arith, n, quiet)))
              | inr (inr c) ↦ inr (inr c)
            ]
      ]

  publish-Awake :
      (s : Observed Url) (us : List Url)
      → Awake s
      → Awake (record s { tracker = replace url_string s.tracker us })
  unfolding replace lookup end_of
  publish-Awake s us v =
      NoneNew-Awake s (replace url_string s.tracker us)
        (publish-NoneNew url_string s.tracker.state_by_target [] s.tracker.next_address us
          (λ k until e. absurd (cc)))
        v

  ask-Awake :
      (s : Observed Url) (now : ℕ)
      → Awake (record s { place = waiting now (due_after now (next_recovery_delay s.tracker now)) })
  ask-Awake s now asked due e = inr (
      inr (λ k until f.
        let (d, q, le) = ask-Covered s.tracker now k until f in ground (arith, e, q, le)))

  step-Awake : {s s' : Observed Url} → Step url_string s s' → Awake s → Awake s'
  unfolding healthy_endpoints
  step-Awake (Step.enter s u now) v =
      NoneNew-Awake s (acquire_permit url_string s.tracker u now).0
        (enter-NoneNew url_string s.tracker u now) v
  step-Awake (Step.count s p outcome now) v = count-Awake s p outcome now v
  step-Awake (Step.read s now) v =
      NoneNew-Awake s (healthy_endpoints url_string s.tracker now).0
        (read-NoneNew url_string now s.tracker.state_by_target s.tracker.ordered) v
  step-Awake (Step.publish s us) v = publish-Awake s us v
  step-Awake (Step.tell s n e) v = λ asked due f. inl refl
  step-Awake (Step.ask s now e) v = ask-Awake s now
  step-Awake (Step.woken s asked' due' e w) v = λ asked due f. absurd (cc)
  step-Awake (Step.fire s asked' due' now e le) v = λ asked due f. absurd (cc)

  reach-Awake : (t : PassiveHealthTracker Url) {s : Observed Url} → Reach url_string t s → Awake s
  reach-Awake t start = λ asked due e. absurd (cc)
  reach-Awake t (later r st) = step-Awake st (reach-Awake t r)

  -- No wake-up is lost: in every state that requests, refreshes, publications, RecordEjection and
  -- Run reach by any steps, if Run waits, nothing is in the channel and no call of RecordEjection is
  -- still to send to it, then for every ejected endpoint the timer runs and is due no later than the
  -- end of the ejection, or it was due at once.
  pub no_lost_wake :
      (t : PassiveHealthTracker Url) {s : Observed Url} (asked : ℕ) (due : Option ℕ) (k : String)
      (until : ℕ)
      → Reach url_string t s
      → s.place ≡ waiting asked due
      → s.wake ≡ false
      → s.telling ≡ 0
      → end_of k s.tracker.state_by_target ≡ some until
      → (e : ℕ) × (due ≡ some e) × ((e ≤ until) ⊎ (e ≡ asked))
  no_lost_wake t asked due k until r waits quiet told ejected =
      elim (reach-Awake t r asked due waits) [
        | inl w ↦ absurd (cc)
        | inr (inl n) ↦ absurd (omega (arith, n, told))
        | inr (inr c) ↦ c k until ejected
      ]
