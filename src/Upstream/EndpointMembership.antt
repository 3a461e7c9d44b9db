-- ===== src/Upstream/EndpointMembership.antt =====
-- internal/upstream/endpoint_membership.go.
use dev_gate.Common.{List, [], Option, none, some}

-- The pointer to a snapshot is nil until the first Replace.
pub record EndpointMembership (Url : Type 0) : Type 0 where
  pub snapshot : Option (List Url)

module _ {Url : Type 0} where
  unfoldable pub healthy_endpoints : EndpointMembership Url → List Url
  healthy_endpoints e = elim e.snapshot [ none ↦ [] | some us ↦ us ]

  unfoldable pub replace : EndpointMembership Url → List Url → EndpointMembership Url
  replace e us = record { snapshot = some us }

  unfoldable pub new : List Url → EndpointMembership Url
  unfolding replace
  new us = replace (record { snapshot = none }) us
