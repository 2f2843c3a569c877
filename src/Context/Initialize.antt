-- ===== src/Context/Initialize.antt =====
-- `initialize_participant` (rmw_gurumdds_cpp/src/rmw_context_impl.cpp), `initialize` and `enable`
-- (rmw_gurumdds_cpp/src/graph_cache.cpp).
use rmw_gurumdds.Base.{
  ℕ, Bool, true, false, not, ltb, if◌then◌else◌, List, [], ◌∷◌, ◌++◌, length, Option, none, some,
}
use rmw_gurumdds.Event.Converter.{RmwRet, ret_ok, ret_error, ret_bad_alloc}
use rmw_gurumdds.Graph.{Node}
use rmw_gurumdds.Graph.Local.{is_ok, to_ret}
use rmw_gurumdds.Context.{Context, and_then}
use rmw_gurumdds.Context.Finalize.{Deletion, finalize_participant}

-- What the calls that create answer, in their order. `on_remote` tells of each supported property
-- whether it contains the text on_remote; `create_participant` is the participant for its user data.
pub record Creation : Type 0 where
  pub factory : Bool
  pub on_remote : List Bool
  pub default_participant_qos : Bool
  pub user_data_capacity : ℕ
  pub create_participant : List ℕ → Option ℕ
  pub default_publisher_qos : Bool
  pub create_publisher : Option ℕ
  pub finalize_publisher_qos : Bool
  pub default_subscriber_qos : Bool
  pub create_subscriber : Option ℕ
  pub finalize_subscriber_qos : Bool
  pub create_discovery_pub : Option ℕ
  pub create_discovery_sub : Option ℕ
  pub create_guard_condition : Option ℕ
  pub run_listener_thread : Bool

-- `remote_support`
unfoldable pub remote_support : List Bool → Bool
remote_support [] = false
remote_support (p ∷ ps) = if p then true else remote_support ps

-- The user data: name=...;namespace=...;securitycontext=...; in ASCII.
unfoldable pub node_user_data : List ℕ → List ℕ → List ℕ → List ℕ
node_user_data name namespace_ enclave =
    (110 ∷ 97 ∷ 109 ∷ 101 ∷ 61 ∷ [])
    ++ name
    ++ (59 ∷ 110 ∷ 97 ∷ 109 ∷ 101 ∷ 115 ∷ 112 ∷ 97 ∷ 99 ∷ 101 ∷ 61 ∷ [])
    ++ namespace_
    ++ (59 ∷ 115 ∷ 101 ∷ 99 ∷ 117 ∷ 114 ∷ 105 ∷ 116 ∷ 121 ∷ 99 ∷ 111 ∷ 110 ∷ 116 ∷ 101 ∷ 120 ∷ 116
        ∷ 61 ∷ [])
    ++ enclave
    ++ (59 ∷ [])

unfoldable pub create_participant : Option ℕ → Context → Context × RmwRet
create_participant none c = (record c { participant = none }, ret_error)
create_participant (some p) c = (record c { participant = some p }, ret_ok)

-- The default QoS, the publisher, and finalizing the QoS.
unfoldable pub create_publisher : Bool → Option ℕ → Bool → Context → Context × RmwRet
create_publisher false p done c = (c, ret_error)
create_publisher true none done c = (record c { publisher = none }, ret_error)
create_publisher true (some p) done c = (record c { publisher = some p }, to_ret done)

unfoldable pub create_subscriber : Bool → Option ℕ → Bool → Context → Context × RmwRet
create_subscriber false p done c = (c, ret_error)
create_subscriber true none done c = (record c { subscriber = none }, ret_error)
create_subscriber true (some p) done c = (record c { subscriber = some p }, to_ret done)

-- `graph_cache::initialize`, without what it changes in the graph itself.
unfoldable pub initialize_graph : Option ℕ → Option ℕ → Option ℕ → Context → Context × RmwRet
initialize_graph none sub guard c = (record c { discovery_pub = none }, ret_error)
initialize_graph (some p) none guard c =
    (record c { discovery_pub = some p; discovery_sub = none }, ret_error)
initialize_graph (some p) (some s) none c = (
  record c { discovery_pub = some p; discovery_sub = some s; graph_guard_condition = none },
  ret_bad_alloc,
)
initialize_graph (some p) (some s) (some g) c = (
  record c {
    discovery_pub = some p;
    discovery_sub = some s;
    graph_guard_condition = some g;
    on_change_callback = true;
  },
  ret_ok,
)

-- The last step, after which the participant has its context.
unfoldable pub attach_graph : Option ℕ → Option ℕ → Option ℕ → Context → Context × RmwRet
unfolding initialize_graph
attach_graph pub_ sub guard c =
    let (c, ret) = initialize_graph pub_ sub guard c in
    if is_ok ret then (record c { entity_context = true }, ret_ok) else (c, ret_error)

-- From the creation of the participant on.
unfoldable pub create_entities : Creation → List ℕ → Context → Context × RmwRet
unfolding create_participant create_publisher create_subscriber attach_graph
create_entities a user_data c =
    and_then (create_participant (a.create_participant user_data) c) (λ c.
      and_then
        (create_publisher a.default_publisher_qos a.create_publisher a.finalize_publisher_qos c)
        (λ c.
          and_then
            (create_subscriber a.default_subscriber_qos a.create_subscriber
              a.finalize_subscriber_qos c)
            (λ c.
              attach_graph a.create_discovery_pub a.create_discovery_sub a.create_guard_condition
                c)))

-- The steps of `initialize_participant`, which its scope exit follows if they fail.
unfoldable pub participant_steps : Creation → List ℕ → Context → Context × RmwRet
unfolding remote_support create_entities
participant_steps a user_data c =
    if not a.factory
    then (c, ret_error)
    else if not (remote_support a.on_remote)
    then (c, ret_error)
    else if not a.default_participant_qos
    then (c, ret_error)
    else if ltb a.user_data_capacity (length user_data)
    then (c, ret_error)
    else create_entities a user_data c

-- The exit also finalizes the two QoS objects, which the state does not hold.
unfoldable pub initialize_participant : Creation → Deletion → Node → Context → Context × RmwRet
unfolding node_user_data participant_steps finalize_participant
initialize_participant a d node c =
    let (c, ret) = participant_steps a (node_user_data node.name node.namespace_ c.enclave) c in
    if is_ok ret then (c, ret) else ((finalize_participant d c).0, ret)
