-- ===== src/Discovery/Watcher.antt =====
-- internal/discovery/dns_watcher.go over any applier, on a state `S`. A refresh is one step.
use dev_gate.Common.{
  ℕ, Bool, List, [], ◌∷◌, ◌++◌, Option, none, some, if◌then◌else◌, length, pos, ℤ, lez, Result, ok,
  ◌>>◌, reject,
}

pub record DnsWatcher : Type 0 where
  pub refresh_interval : ℤ
  pub lookup_timeout : ℤ

pub data WatcherError : Type 0 where
  resolver_missing applier_missing observer_missing : WatcherError
  refresh_not_positive timeout_not_positive : WatcherError

-- NewDNSWatcher; the tests are whether the resolver, the applier and the observer are nil.
unfoldable pub new : Bool → Bool → Bool → ℤ → ℤ → Result WatcherError DnsWatcher
new no_resolver no_applier no_observer refresh_interval lookup_timeout = do
  reject no_resolver resolver_missing
  reject no_applier applier_missing
  reject no_observer observer_missing
  reject (lez refresh_interval (pos 0)) refresh_not_positive
  reject (lez lookup_timeout (pos 0)) timeout_not_positive
  ok (record { refresh_interval = refresh_interval; lookup_timeout = lookup_timeout })

-- What a refresh meets: the resolver's answer, whether the context is done after it, and the reading
-- of the clock for the applier.
pub record Lookup (U : Type 0) : Type 0 where
  pub answer : Option (List U)
  pub done : Bool
  pub now : ℕ

-- RecordRefresh: the number of endpoints, and the error if there is one.
pub data RefreshError : Type 0 where
  resolve_failed apply_failed : RefreshError

abbrev pub Refreshed : Type 0
Refreshed = ℕ × Option RefreshError

module _ {U S E : Type 0} (apply : S → List U → ℕ → Option (S × Option E)) where
  -- refresh: the state, and what is recorded; `none` is a panic of the applier.
  unfoldable pub refresh : S → Lookup U → Option (S × List Refreshed)
  refresh s l = if l.done then some (s, []) else elim l.answer [
    | none ↦ some (s, (0, some resolve_failed) ∷ [])
    | some us ↦ elim (apply s us l.now) [
      | none ↦ none
      | some (s', failed) ↦ elim failed [
        | none ↦ some (s', (length us, none) ∷ [])
        | some e ↦ some (s', (length us, some apply_failed) ∷ [])
      ]
    ]
  ]

  -- The refreshes of Run.
  unfoldable pub run : S → List (Lookup U) → Option (S × List Refreshed)
  unfolding refresh
  run s [] = some (s, [])
  run s (l ∷ ls) = elim (refresh s l) [
    | none ↦ none
    | some (s', es) ↦ elim (run s' ls) [ none ↦ none | some (s'', fs) ↦ some (s'', es ++ fs) ]
  ]
