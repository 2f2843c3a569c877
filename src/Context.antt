-- ===== src/Context.antt =====
-- The context of a process: its participant, publisher and subscriber, what the graph uses to talk to
-- other processes, and the number of nodes (rmw_gurumdds_cpp/src/rmw_context_impl.cpp, `initialize`,
-- `finalize` and `enable` of rmw_gurumdds_cpp/src/graph_cache.cpp, rmw_gurumdds_cpp/src/rmw_node.cpp).
pub mod Finalize
pub mod Initialize
pub mod Nodes
pub mod Retry
pub mod Ready
pub mod Bare
pub mod Reach
pub mod Invariant
pub mod Undo
pub mod Lost
mod Tests
use rmw_gurumdds.Base.{ℕ, Bool, List, Option}
use rmw_gurumdds.Event.Converter.{RmwRet, ret_ok}

-- The pointers are none where they are null. `on_change_callback` and `entity_context` tell whether
-- the graph has the callback, and whether the participant has the context that its listeners need.
pub record Context : Type 0 where
  pub enclave : List ℕ
  pub node_count : ℕ
  pub is_shutdown : Bool
  pub participant : Option ℕ
  pub publisher : Option ℕ
  pub subscriber : Option ℕ
  pub discovery_pub : Option ℕ
  pub discovery_sub : Option ℕ
  pub graph_guard_condition : Option ℕ
  pub on_change_callback : Bool
  pub entity_context : Bool

-- A result other than RMW_RET_OK is returned at once.
abbrev pub and_then : Context × RmwRet → (Context → Context × RmwRet) → Context × RmwRet
and_then (c, ret_ok) f = f c
and_then (c, ret) f = (c, ret)
