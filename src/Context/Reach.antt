-- ===== src/Context/Reach.antt =====
-- Contexts that creating and destroying nodes reach (rmw_gurumdds_cpp/src/rmw_node.cpp,
-- rmw_gurumdds_cpp/src/rmw_context_impl.cpp).
use rmw_gurumdds.Base.{
  ℕ, ◌+◌, ◌-◌, ◌%◌, ◌^◌, ◌==◌, ◌≡◌, sym, ap, ◌∙◌, Bool, true, false, not, ltb, if◌then◌else◌, inl,
  inr, Bool-cases, List, length,
}
use mathlib.Core.Bool.{false≢true}
use rmw_gurumdds.Event.Converter.{RmwRet, ret_error}
use rmw_gurumdds.Graph.{Node}
use rmw_gurumdds.Graph.Local.{is_ok}
use rmw_gurumdds.Context.{Context}
use rmw_gurumdds.Context.Finalize.{Deletion, finalize_participant}
use rmw_gurumdds.Context.Initialize.{
  Creation, remote_support, node_user_data, participant_steps, initialize_participant,
}
use rmw_gurumdds.Context.Nodes.{first_node, initialize_node, finalize_node}
use rmw_gurumdds.Context.Retry.{emptied-finalize_participant}
use rmw_gurumdds.Context.Ready.{IsReady, create_entities-IsReady}
use rmw_gurumdds.Context.Bare.{participant_steps-bare}

-- A failed step does not count.
step_IsReady :
    (go : Bool) (c : Context) (x : Context × RmwRet)
    → (is_ok x.1 ≡ true → IsReady x.0)
    → is_ok (if go then (c, ret_error) else x).1 ≡ true
    → IsReady (if go then (c, ret_error) else x).0
step_IsReady true c x h done = absurd (false≢true done)
step_IsReady false c x h done = h done

participant_steps-IsReady :
    (a : Creation) (user_data : List ℕ) (c : Context)
    → is_ok (participant_steps a user_data c).1 ≡ true
    → IsReady (participant_steps a user_data c).0
unfolding participant_steps
participant_steps-IsReady a user_data c = step_IsReady (not a.factory) c _ (
    step_IsReady (not (remote_support a.on_remote)) c _ (
      step_IsReady (not a.default_participant_qos) c _ (
        step_IsReady (ltb a.user_data_capacity (length user_data)) c _
          (create_entities-IsReady a user_data c))))

finalize_participant-count :
    (d : Deletion) (c : Context) → (finalize_participant d c).0.node_count ≡ c.node_count
finalize_participant-count d c =
    ap (λ (c : Context). c.node_count) (emptied-finalize_participant d c)

-- What `initialize_participant` leaves: everything, or an error, and the number of nodes.
pub record IsAnswer (c : Context) (x : Context × RmwRet) : Type 0 where
  pub all_there : is_ok x.1 ≡ true → IsReady x.0
  pub same_count : x.0.node_count ≡ c.node_count

pub initialize_participant-IsAnswer :
    (a : Creation) (d : Deletion) (node : Node) (c : Context)
    → IsAnswer c (initialize_participant a d node c)
unfolding initialize_participant
initialize_participant-IsAnswer a d node c =
    let user_data = node_user_data node.name node.namespace_ c.enclave in
    let steps = participant_steps a user_data c in
    elim (Bool-cases (is_ok steps.1)) [
      | inl done ↦
          rw (initialize_participant, done)
            (record {
              all_there = participant_steps-IsReady a user_data c;
              same_count =
                  ap (λ (c : Context). c.node_count) (participant_steps-bare a user_data c);
            })
      | inr failed ↦
          rw (initialize_participant, failed)
            (record {
              all_there = λ e. absurd (false≢true (sym failed ∙ e));
              same_count =
                  finalize_participant-count d steps.0
                  ∙ ap (λ (c : Context). c.node_count) (participant_steps-bare a user_data c);
            })
    ]

-- A context with nodes has everything.
abbrev pub IsWell : Context → Type 0
IsWell c = (c.node_count == 0) ≡ false → IsReady c

with_count : (n : ℕ) (c : Context) → IsReady c → IsReady (record c { node_count = n })
with_count n c h = record {
  has_participant = h.has_participant;
  has_publisher = h.has_publisher;
  has_subscriber = h.has_subscriber;
  has_discovery_pub = h.has_discovery_pub;
  has_discovery_sub = h.has_discovery_sub;
  has_guard_condition = h.has_guard_condition;
  has_callback = h.has_callback;
  has_context = h.has_context;
}

pub no_nodes-IsWell : (c : Context) → (c.node_count == 0) ≡ true → IsWell c
no_nodes-IsWell c none_left some_left = absurd (false≢true (sym some_left ∙ none_left))

pub finalize_node-IsWell : (d : Deletion) (c : Context) → IsReady c → IsWell (finalize_node d c).0
unfolding finalize_node
finalize_node-IsWell d c h =
    let count = (c.node_count + 2 ^ 64 - 1) % 2 ^ 64 in
    let c' : Context = record c { node_count = count } in
    elim (Bool-cases (count == 0)) [
      | inl last ↦
          rw (finalize_node, last)
            (no_nodes-IsWell (finalize_participant d c').0
              (ap (λ n. n == 0) (finalize_participant-count d c') ∙ last))
      | inr more ↦ rw (finalize_node, more) (λ some_left. with_count count c h)
    ]

first_node-IsReady :
    (enabled : Bool) (c : Context) (x : Context × RmwRet)
    → IsAnswer c x
    → is_ok (first_node enabled x).1 ≡ true
    → IsReady (first_node enabled x).0
unfolding first_node
first_node-IsReady enabled c (c', ret) h done = elim (Bool-cases (is_ok ret)) [
  | inr failed ↦ absurd (false≢true (sym failed ∙ rw (first_node, failed) at done))
  | inl all_ ↦ elim (Bool-cases enabled) [
    | inl runs ↦ rw (first_node, all_, runs) (with_count 1 c' (h.all_there all_))
    | inr stays ↦ absurd (false≢true (rw (first_node, all_, stays) at done))
  ]
]

first_node-IsWell :
    (enabled : Bool) (c : Context) (x : Context × RmwRet)
    → (c.node_count == 0) ≡ true
    → IsAnswer c x
    → is_ok (first_node enabled x).1 ≡ false
    → IsWell (first_node enabled x).0
unfolding first_node
first_node-IsWell enabled c (c', ret) none_yet h failed =
    let none_left : (c'.node_count == 0) ≡ true = ap (λ n. n == 0) h.same_count ∙ none_yet in
    elim (Bool-cases (is_ok ret)) [
      | inr refused ↦ rw (first_node, refused) (no_nodes-IsWell c' none_left)
      | inl all_ ↦ elim (Bool-cases enabled) [
        | inl runs ↦ absurd (false≢true (sym (rw (first_node, all_, runs) at failed)))
        | inr stays ↦
            rw (first_node, all_, stays)
              (no_nodes-IsWell (record c' { entity_context = false }) none_left)
      ]
    ]

pub initialize_node-IsReady :
    (a : Creation) (d : Deletion) (node : Node) (c : Context)
    → IsWell c
    → is_ok (initialize_node a d node c).1 ≡ true
    → IsReady (initialize_node a d node c).0
unfolding initialize_node
initialize_node-IsReady a d node c well done = elim (Bool-cases (c.node_count == 0)) [
  | inr some_ ↦
      rw (initialize_node, some_) (with_count ((c.node_count + 1) % 2 ^ 64) c (well some_))
  | inl none_yet ↦
      rw (initialize_node, none_yet)
        (first_node-IsReady a.run_listener_thread c (initialize_participant a d node c)
          (initialize_participant-IsAnswer a d node c) (rw (initialize_node, none_yet) at done))
]

pub initialize_node-IsWell :
    (a : Creation) (d : Deletion) (node : Node) (c : Context)
    → IsWell c
    → is_ok (initialize_node a d node c).1 ≡ false
    → IsWell (initialize_node a d node c).0
unfolding initialize_node
initialize_node-IsWell a d node c well failed = elim (Bool-cases (c.node_count == 0)) [
  | inr some_ ↦ absurd (false≢true (sym (rw (initialize_node, some_) at failed)))
  | inl none_yet ↦
      rw (initialize_node, none_yet)
        (first_node-IsWell a.run_listener_thread c (initialize_participant a d node c) none_yet
          (initialize_participant-IsAnswer a d node c) (rw (initialize_node, none_yet) at failed))
]
