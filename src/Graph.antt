-- ===== src/Graph.antt =====
-- The graph of nodes and endpoints (rmw_gurumdds_cpp/src/graph_cache.cpp and the listener functions of
-- rmw_gurumdds_cpp/src/rmw_context_impl.cpp). The graph itself is kept by `rmw_dds_common`, which is
-- no part of the repository: it is an interface here.
pub mod Local
pub mod Remote
pub mod Laws
pub mod Rollback
pub mod Watch
mod Tests
use rmw_gurumdds.Base.{ℕ, Bool, List, Option}
use rmw_gurumdds.Event.Converter.{RmwRet}
use rmw_gurumdds.Qos.{
  HistoryPolicy, ReliabilityPolicy, DurabilityPolicy, LivelinessPolicy, HistoryKind,
  ReliabilityKind, DurabilityKind, LivelinessKind, RmwTime, Duration,
}

-- The profile that `add_entity` hands on.
pub record EntityProfile : Type 0 where
  pub history : HistoryPolicy
  pub depth : ℕ
  pub reliability : ReliabilityPolicy
  pub durability : DurabilityPolicy
  pub deadline : RmwTime
  pub lifespan : RmwTime
  pub liveliness : LivelinessPolicy
  pub liveliness_lease_duration : RmwTime

-- The policies of DDS that are passed to `add_entity`; the pointers to history and lifespan may be
-- null.
pub record Policies : Type 0 where
  pub history : Option (HistoryKind × ℕ)
  pub reliability : ReliabilityKind
  pub durability : DurabilityKind
  pub deadline : Duration
  pub liveliness : LivelinessKind
  pub lease_duration : Duration
  pub lifespan : Option Duration

-- Names, type names and type hashes are lists of bytes, as are gids.
pub record Endpoint : Type 0 where
  pub topic_name : List ℕ
  pub type_name : List ℕ
  pub type_hash : List ℕ

pub record Node : Type 0 where
  pub name : List ℕ
  pub namespace_ : List ℕ

-- `rmw_dds_common::Context` and its graph cache: the functions that the code calls. `Info` is a
-- ParticipantEntitiesInfo.
pub record CommonContext (S Info : Type 0) : Type 0 where
  pub gid : List ℕ
  pub add_entity : List ℕ → Endpoint → List ℕ → EntityProfile → Bool → S → S × Bool
  pub remove_entity : List ℕ → Bool → S → S × Bool
  pub add_node_graph : Node → S → S × RmwRet
  pub remove_node_graph : Node → S → S × RmwRet
  pub add_publisher_graph : List ℕ → Node → S → S × RmwRet
  pub remove_publisher_graph : List ℕ → Node → S → S × RmwRet
  pub add_subscriber_graph : List ℕ → Node → S → S × RmwRet
  pub remove_subscriber_graph : List ℕ → Node → S → S × RmwRet
  pub add_service_graph : List ℕ → List ℕ → Node → S → S × RmwRet
  pub remove_service_graph : List ℕ → List ℕ → Node → S → S × RmwRet
  pub add_client_graph : List ℕ → List ℕ → Node → S → S × RmwRet
  pub add_participant : List ℕ → List ℕ → S → S
  pub remove_participant : List ℕ → S → S
  pub info_gid : Info → List ℕ
  pub update_participant_entities : Info → S → S
