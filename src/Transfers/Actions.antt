-- ===== src/Transfers/Actions.antt =====
-- The list of transfers in web/src/features/transfers/index.tsx: the names that it shows, and the
-- actions that the menu of a row offers.
use cadentra.Prelude.{
  String, Option, none, some, List, [], ◌∷◌, Bool, ◌==◌, ◌≡◌, includes, truthy, if◌then◌else◌, Dict,
  lookup, insert, true, false, eq_iff,
}
use cadentra.Api.{Node}

-- web/src/lib/api.ts: FileTransferTarget and FileTransfer, as far as the page reads them.
pub record FileTransferTarget : Type 0 where
  pub node_id : String
  pub destination_path : String
  pub status : String

pub record FileTransfer : Type 0 where
  pub id : String
  pub source_node_id : String
  pub source_path : String
  pub status : String
  pub updated_at : String
  pub targets : List FileTransferTarget

abbrev names_from : Dict String → List Node → Dict String
names_from d [] = d
names_from d (n ∷ rest) = names_from (insert n.id n.hostname d) rest

-- new Map(nodes.map((node) => [node.id, node.hostname])): a later node with the same id wins.
unfoldable pub node_names : List Node → Dict String
unfolding insert
node_names nodes = names_from [] nodes

-- nodeNames.get(id) || id
abbrev name_or_id : Option String → String → String
name_or_id none id = id
name_or_id (some name) id = if truthy name then name else id

unfoldable pub node_name : Dict String → String → String
unfolding lookup
node_name names id = name_or_id (lookup id names) id

unfoldable pub offers_retry : FileTransfer → Bool
offers_retry t = t.status == "FAILED"

unfoldable pub offers_cancel : FileTransfer → Bool
unfolding includes
offers_cancel t = includes ("PENDING" ∷ "UPLOADING" ∷ "DELIVERING" ∷ []) t.status

-- A transfer is offered at most one of the two actions.
pub offers_exclusive : (t : FileTransfer) → offers_retry t ≡ true → offers_cancel t ≡ false
unfolding offers_retry offers_cancel
offers_exclusive t h = let failed : t.status ≡ "FAILED" = (eq_iff _ _).0 h in rw failed
