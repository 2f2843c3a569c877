-- ===== src/Context/Tests.antt =====
-- Contexts and nodes at concrete inputs (rmw_gurumdds_cpp/src/rmw_context_impl.cpp,
-- rmw_gurumdds_cpp/src/rmw_node.cpp).
use rmw_gurumdds.Base.{◌≡◌, refl, true, false, [], ◌∷◌, some}
use rmw_gurumdds.Event.Converter.{ret_ok, ret_error}
use rmw_gurumdds.Graph.{Node}
use rmw_gurumdds.Context.{Context}
use rmw_gurumdds.Context.Finalize.{Deletion, finalize_participant}
use rmw_gurumdds.Context.Initialize.{
  Creation, remote_support, node_user_data, create_entities, participant_steps,
  initialize_participant,
}
use rmw_gurumdds.Context.Nodes.{
  NodeAnswers, first_node, initialize_node, finalize_node, allocate_node, rmw_create_node,
  rmw_destroy_node,
}
use rmw_gurumdds.Context.Retry.{IsDeleting, finalize_participant-finalize_participant}
use rmw_gurumdds.Context.Ready.{IsReady}
use rmw_gurumdds.Context.Invariant.{fresh, starts, creates, destroys, Run-IsReady}
use rmw_gurumdds.Context.Lost.{IsLost, initialize_node-IsLost}
use rmw_gurumdds.Context.Undo.{no_context, rmw_create_node-undone}

abbrev all_deleted : Deletion
all_deleted = record {
  stop_listener_thread = true;
  destroy_guard_condition = true;
  destroy_subscription = true;
  destroy_publisher = true;
  delete_publisher = true;
  delete_subscriber = true;
  factory = true;
  delete_participant = true;
}

all_deleted-IsDeleting : IsDeleting all_deleted
all_deleted-IsDeleting = record {
  thread_stops = refl;
  guard_goes = refl;
  sub_goes = refl;
  pub_goes = refl;
  publisher_goes = refl;
  subscriber_goes = refl;
  has_factory = refl;
  participant_goes = refl;
}

abbrev all_created : Creation
all_created = record {
  factory = true;
  on_remote = false ∷ true ∷ [];
  default_participant_qos = true;
  user_data_capacity = 256;
  create_participant = λ user_data. some 1;
  default_publisher_qos = true;
  create_publisher = some 2;
  finalize_publisher_qos = true;
  default_subscriber_qos = true;
  create_subscriber = some 3;
  finalize_subscriber_qos = true;
  create_discovery_pub = some 4;
  create_discovery_sub = some 5;
  create_guard_condition = some 6;
  run_listener_thread = true;
}

abbrev talker : Node
talker = record { name = 116 ∷ []; namespace_ = 47 ∷ [] }

abbrev accepted : NodeAnswers
accepted = record {
  is_initialized = true;
  identifier_matches = true;
  name_is_valid = true;
  namespace_is_valid = true;
  node_allocated = true;
  name_allocated = true;
  namespace_allocated = true;
  node_created = ret_ok;
}

abbrev two_nodes : Context
two_nodes =
    (rmw_create_node accepted all_created all_deleted talker
      (rmw_create_node accepted all_created all_deleted talker (fresh (47 ∷ []))).0).0

-- The subscriber cannot be deleted at first.
finalize_participant-finalize_participant_example :
    finalize_participant all_deleted
      (finalize_participant
        (record all_deleted { delete_subscriber = false })
        (record (fresh []) { participant = some 1; publisher = some 2; subscriber = some 3 })).0
    ≡ (fresh [], ret_ok)
finalize_participant-finalize_participant_example =
    finalize_participant-finalize_participant (record all_deleted { delete_subscriber = false })
      all_deleted
      (record (fresh []) { participant = some 1; publisher = some 2; subscriber = some 3 })
      all_deleted-IsDeleting

-- One of two nodes is destroyed.
Run-IsReady_example : IsReady (rmw_destroy_node ret_ok all_deleted two_nodes).0
unfolding rmw_destroy_node rmw_create_node allocate_node finalize_node initialize_node first_node
    initialize_participant participant_steps node_user_data remote_support create_entities
Run-IsReady_example =
    Run-IsReady (rmw_destroy_node ret_ok all_deleted two_nodes).0
      (destroys
        (creates (creates (starts (47 ∷ [])) accepted all_created all_deleted talker) accepted
          all_created all_deleted talker)
        ret_ok all_deleted refl)
      refl

-- The graph does not take the node.
rmw_create_node-undone_example :
    no_context
      (rmw_create_node
        (record accepted { node_created = ret_error })
        all_created
        all_deleted
        talker
        (fresh [])).0
    ≡ no_context (fresh [])
unfolding rmw_create_node allocate_node initialize_node first_node initialize_participant
    participant_steps node_user_data remote_support create_entities
rmw_create_node-undone_example =
    rmw_create_node-undone (record accepted { node_created = ret_error }) all_created all_deleted
      talker (fresh []) all_deleted-IsDeleting refl refl refl refl

initialize_node-IsLost_example : IsLost (
    initialize_node
      (record all_created { run_listener_thread = false })
      all_deleted
      talker
      (fresh []))
unfolding initialize_participant participant_steps node_user_data remote_support create_entities
initialize_node-IsLost_example =
    initialize_node-IsLost (record all_created { run_listener_thread = false }) all_deleted talker
      (fresh []) refl refl refl
