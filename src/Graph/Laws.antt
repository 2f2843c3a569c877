-- ===== src/Graph/Laws.antt =====
-- What the code relies on of the graph that `rmw_dds_common` keeps.
use rmw_gurumdds.Base.{ℕ, ◌≡◌, Bool, true, false, not, ◌||◌, ◌&&◌, List}
use rmw_gurumdds.Rpc.Samples.{same_bytes}
use rmw_gurumdds.Graph.{EntityProfile, Endpoint, Node, CommonContext}

-- Readers and writers are kept apart.
abbrev pub same_entity : List ℕ → Bool → List ℕ → Bool → Bool
same_entity g true g' true = same_bytes g g'
same_entity g false g' false = same_bytes g g'
same_entity g _ g' _ = false

-- `has s g r` tells whether the graph has the entity: adding it succeeds or changes nothing, removing
-- leaves all others, and the nodes' own lists of endpoints, which the functions with `graph` in
-- their names change, have no part in it.
pub record IsGraph {S Info : Type 0} (common : CommonContext S Info)
    (has : S → List ℕ → Bool → Bool) : Type 0 where
  pub added :
      (g : List ℕ) (e : Endpoint) (d : List ℕ) (p : EntityProfile) (r : Bool) (s : S)
      → (common.add_entity g e d p r s).1 ≡ true
      → (g' : List ℕ) (r' : Bool)
      → has (common.add_entity g e d p r s).0 g' r' ≡ (same_entity g r g' r' || has s g' r')
  pub not_added :
      (g : List ℕ) (e : Endpoint) (d : List ℕ) (p : EntityProfile) (r : Bool) (s : S)
      → (common.add_entity g e d p r s).1 ≡ false
      → (g' : List ℕ) (r' : Bool) → has (common.add_entity g e d p r s).0 g' r' ≡ has s g' r'
  pub removed :
      (g : List ℕ) (r : Bool) (s : S) (g' : List ℕ) (r' : Bool)
      → has (common.remove_entity g r s).0 g' r' ≡ (not (same_entity g r g' r') && has s g' r')
  pub publisher_graph :
      (g : List ℕ) (n : Node) (s : S) (g' : List ℕ) (r' : Bool)
      → has (common.add_publisher_graph g n s).0 g' r' ≡ has s g' r'
  pub service_graph :
      (g h : List ℕ) (n : Node) (s : S) (g' : List ℕ) (r' : Bool)
      → has (common.add_service_graph g h n s).0 g' r' ≡ has s g' r'
