-- ===== src/Context/Invariant.antt =====
-- The invariant of the contexts that nodes, and their end, reach (rmw_gurumdds_cpp/src/rmw_node.cpp).
use rmw_gurumdds.Base.{
  ◌==◌, ◌&&◌, ◌≡◌, ℕ, Bool, true, false, not, if◌then◌else◌, inl, inr, Bool-cases, List, none, refl,
}
use rmw_gurumdds.Event.Converter.{RmwRet}
use rmw_gurumdds.Graph.{Node}
use rmw_gurumdds.Graph.Local.{is_ok}
use rmw_gurumdds.Context.{Context}
use rmw_gurumdds.Context.Finalize.{Deletion}
use rmw_gurumdds.Context.Initialize.{Creation}
use rmw_gurumdds.Context.Nodes.{
  NodeAnswers, initialize_node, allocate_node, rmw_create_node, rmw_destroy_node,
}
use rmw_gurumdds.Context.Ready.{IsReady}
use rmw_gurumdds.Context.Reach.{
  IsWell, no_nodes-IsWell, finalize_node-IsWell, initialize_node-IsReady, initialize_node-IsWell,
}

-- The constructor of the context.
abbrev pub fresh : List ℕ → Context
fresh enclave = record {
  enclave = enclave;
  node_count = 0;
  is_shutdown = false;
  participant = none;
  publisher = none;
  subscriber = none;
  discovery_pub = none;
  discovery_sub = none;
  graph_guard_condition = none;
  on_change_callback = false;
  entity_context = false;
}

-- The contexts that come from a new one by creating nodes, by destroying nodes while there are some,
-- and by shutting down; whatever DDS, malloc and the checks answer each time.
pub data Run : Context → Type 0 where
  starts : (enclave : List ℕ) → Run (fresh enclave)
  creates :
      {c : Context}
      → Run c
      → (n : NodeAnswers) (a : Creation) (d : Deletion) (node : Node)
      → Run (rmw_create_node n a d node c).0
  destroys :
      {c : Context}
      → Run c
      → (deleted : RmwRet) (d : Deletion) → (c.node_count == 0) ≡ false
      → Run (rmw_destroy_node deleted d c).0
  shuts_down : {c : Context} → Run c → Run (record c { is_shutdown = true })

either_IsWell :
    {A : Type 0} (test : Bool) (x y : Context × A)
    → (test ≡ true → IsWell x.0)
    → (test ≡ false → IsWell y.0)
    → IsWell (if test then x else y).0
either_IsWell true x y first second = first refl
either_IsWell false x y first second = second refl

allocate_node-IsWell :
    (n : NodeAnswers) (d : Deletion) (c : Context) → IsReady c → IsWell (allocate_node n d c).0
unfolding allocate_node
allocate_node-IsWell n d c h =
    either_IsWell
      (n.node_allocated && n.name_allocated && n.namespace_allocated && is_ok n.node_created) _ _
      (λ all_ e. h) (λ failed. finalize_node-IsWell d c h)

rmw_create_node-IsWell :
    (n : NodeAnswers) (a : Creation) (d : Deletion) (node : Node) (c : Context)
    → IsWell c
    → IsWell (rmw_create_node n a d node c).0
unfolding rmw_create_node
rmw_create_node-IsWell n a d node c well =
    either_IsWell
      (not (n.is_initialized && n.identifier_matches && n.name_is_valid && n.namespace_is_valid)) _
      _ (λ refused. well)
      (λ valid.
        either_IsWell c.is_shutdown _ _ (λ down. well)
          (λ up.
            either_IsWell (is_ok (initialize_node a d node c).1) _ _
              (λ done.
                allocate_node-IsWell n d (initialize_node a d node c).0
                  (initialize_node-IsReady a d node c well done))
              (λ failed. initialize_node-IsWell a d node c well failed)))

rmw_destroy_node-IsWell :
    (deleted : RmwRet) (d : Deletion) (c : Context)
    → (c.node_count == 0) ≡ false
    → IsWell c
    → IsWell (rmw_destroy_node deleted d c).0
unfolding rmw_destroy_node
rmw_destroy_node-IsWell deleted d c some_ well = elim (Bool-cases (is_ok deleted)) [
  | inl done ↦ rw (rmw_destroy_node, done) (finalize_node-IsWell d c (well some_))
  | inr failed ↦ rw (rmw_destroy_node, failed) well
]

shut_down-IsWell : (c : Context) → IsWell c → IsWell (record c { is_shutdown = true })
shut_down-IsWell c well e =
    let h = well e in
    record {
      has_participant = h.has_participant;
      has_publisher = h.has_publisher;
      has_subscriber = h.has_subscriber;
      has_discovery_pub = h.has_discovery_pub;
      has_discovery_sub = h.has_discovery_sub;
      has_guard_condition = h.has_guard_condition;
      has_callback = h.has_callback;
      has_context = h.has_context;
    }

Run-IsWell : (c : Context) → Run c → IsWell c
Run-IsWell _ (starts enclave) = no_nodes-IsWell (fresh enclave) refl
Run-IsWell _ (creates {c = c} run n a d node) =
    rmw_create_node-IsWell n a d node c (Run-IsWell c run)
Run-IsWell _ (destroys {c = c} run deleted d some_) =
    rmw_destroy_node-IsWell deleted d c some_ (Run-IsWell c run)
Run-IsWell _ (shuts_down {c = c} run) = shut_down-IsWell c (Run-IsWell c run)

-- In every context that creating and destroying nodes reach, whatever fails on the way, the following
-- holds while it has nodes: its participant, publisher and subscriber, the publisher and subscription
-- of the discovery topic and the graph's guard condition are there, the graph has its callback,
-- and the participant has the context for its listeners.
pub Run-IsReady : (c : Context) → Run c → (c.node_count == 0) ≡ false → IsReady c
Run-IsReady c run some_ = Run-IsWell c run some_
