-- ===== src/Context/Nodes.antt =====
-- The nodes of a context: `initialize_node` and `finalize_node`
-- (rmw_gurumdds_cpp/src/rmw_context_impl.cpp), `rmw_create_node` and `rmw_destroy_node`
-- (rmw_gurumdds_cpp/src/rmw_node.cpp).
use rmw_gurumdds.Base.{◌+◌, ◌-◌, ◌%◌, ◌^◌, ◌==◌, Bool, true, false, not, ◌&&◌, if◌then◌else◌}
use rmw_gurumdds.Event.Converter.{RmwRet, ret_ok, ret_error}
use rmw_gurumdds.Graph.{Node}
use rmw_gurumdds.Graph.Local.{is_ok}
use rmw_gurumdds.Context.{Context}
use rmw_gurumdds.Context.Finalize.{Deletion, finalize_participant}
use rmw_gurumdds.Context.Initialize.{Creation, initialize_participant}

-- The first node: `enable`, the start of the listener thread, decides last.
unfoldable pub first_node : Bool → Context × RmwRet → Context × RmwRet
first_node enabled (c, ret) =
    if is_ok ret
    then if enabled
      then (record c { node_count = 1 }, ret_ok)
      else (record c { entity_context = false }, ret_error)
    else (c, ret)

-- `size_t` counts wrap at 2 ^ 64.
unfoldable pub initialize_node : Creation → Deletion → Node → Context → Context × RmwRet
unfolding first_node initialize_participant
initialize_node a d node c =
    if not (c.node_count == 0)
    then (record c { node_count = (c.node_count + 1) % 2 ^ 64 }, ret_ok)
    else first_node a.run_listener_thread (initialize_participant a d node c)

unfoldable pub finalize_node : Deletion → Context → Context × RmwRet
unfolding finalize_participant
finalize_node d c =
    let count = (c.node_count + 2 ^ 64 - 1) % 2 ^ 64 in
    let c = (record c { node_count = count }) in
    if not (count == 0) then (c, ret_ok) else finalize_participant d c

-- What the checks of `rmw_create_node` find, whether its three allocations succeed, and what
-- `on_node_created` returns.
pub record NodeAnswers : Type 0 where
  pub is_initialized : Bool
  pub identifier_matches : Bool
  pub name_is_valid : Bool
  pub namespace_is_valid : Bool
  pub node_allocated : Bool
  pub name_allocated : Bool
  pub namespace_allocated : Bool
  pub node_created : RmwRet

-- What follows `initialize_node`, without what `on_node_created` changes in the graph; the result tells whether a node is returned. The scope exit gives
-- the node back to the context.
unfoldable pub allocate_node : NodeAnswers → Deletion → Context → Context × Bool
unfolding finalize_node
allocate_node n d c =
    if n.node_allocated && n.name_allocated && n.namespace_allocated && is_ok n.node_created
    then (c, true)
    else ((finalize_node d c).0, false)

unfoldable pub rmw_create_node : NodeAnswers → Creation → Deletion → Node → Context → Context × Bool
unfolding initialize_node allocate_node
rmw_create_node n a d node c =
    if not (n.is_initialized && n.identifier_matches && n.name_is_valid && n.namespace_is_valid)
    then (c, false)
    else if c.is_shutdown
    then (c, false)
    else let (c', ret) = initialize_node a d node c in
      if is_ok ret then allocate_node n d c' else (c', false)

-- For a node that is not null and of this implementation; `deleted` is what `on_node_deleted` returns.
unfoldable pub rmw_destroy_node : RmwRet → Deletion → Context → Context × RmwRet
unfolding finalize_node
rmw_destroy_node deleted d c =
    let (c', ret) = finalize_node d c in
    if not (is_ok deleted) then (c, ret_error) else (c', if is_ok ret then ret_ok else ret_error)
