-- ===== src/Catalog/NodeApplications.antt =====
-- The query 'node-applications' of AgentDetail in web/src/features/catalog/index.tsx: the
-- applications on the page of a node.
pub mod Saved
use cadentra.Prelude.{String, Option, none, some, List, Bool, false, filter, includes}
use cadentra.Api.{Application}

-- The answer for one application: `nodes` answers `/applications/${id}/nodes`, and none is a
-- request that rejects.
unfoldable pub is_assigned : (String → Option (List String)) → String → Application → Bool
unfolding includes
is_assigned nodes id application = elim (nodes application.id) [
  | none ↦ false
  | some node_ids ↦ includes node_ids id
]

unfoldable pub node_applications :
    (String → Option (List String)) → String → Option (List Application) → Option (List Application)
unfolding is_assigned filter
node_applications nodes id none = none
node_applications nodes id (some all) = some (filter (is_assigned nodes id) all)
