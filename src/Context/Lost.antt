-- ===== src/Context/Lost.antt =====
-- What stays where the listener thread does not start (rmw_gurumdds_cpp/src/rmw_context_impl.cpp).
use rmw_gurumdds.Base.{◌+◌, ◌%◌, ◌^◌, ◌==◌, ◌≡◌, refl, ap, ◌∙◌, true, false, not, if◌then◌else◌}
use rmw_gurumdds.Event.Converter.{RmwRet, ret_ok}
use rmw_gurumdds.Graph.{Node}
use rmw_gurumdds.Graph.Local.{is_ok}
use rmw_gurumdds.Context.{Context}
use rmw_gurumdds.Context.Finalize.{Deletion}
use rmw_gurumdds.Context.Initialize.{Creation, initialize_participant}
use rmw_gurumdds.Context.Nodes.{first_node, initialize_node}
use rmw_gurumdds.Context.Ready.{is_set}
use rmw_gurumdds.Context.Reach.{IsAnswer, initialize_participant-IsAnswer}

-- The first node of a context got an error, is not counted, and has left these.
pub record IsLost (x : Context × RmwRet) : Type 0 where
  pub an_error : is_ok x.1 ≡ false
  pub not_counted : x.0.node_count ≡ 0
  pub participant_stays : is_set x.0.participant ≡ true
  pub publisher_stays : is_set x.0.publisher ≡ true
  pub subscriber_stays : is_set x.0.subscriber ≡ true
  pub guard_condition_stays : is_set x.0.graph_guard_condition ≡ true

first_node-IsLost :
    (c : Context) (x : Context × RmwRet)
    → c.node_count ≡ 0
    → is_ok x.1 ≡ true
    → IsAnswer c x
    → IsLost (first_node false x)
unfolding first_node
first_node-IsLost c (c', ret) none_yet done h =
    let ready = h.all_there done in
    rw (first_node, done)
      (record {
        an_error = refl;
        not_counted = h.same_count ∙ none_yet;
        participant_stays = ready.has_participant;
        publisher_stays = ready.has_publisher;
        subscriber_stays = ready.has_subscriber;
        guard_condition_stays = ready.has_guard_condition;
      })

-- Where a context has no nodes, its participant is initialized, and then the listener thread does not
-- start, initialize_node returns an error and counts no node, but the participant, its publisher and
-- subscriber and the guard condition of the graph stay.
pub initialize_node-IsLost :
    (a : Creation) (d : Deletion) (node : Node) (c : Context)
    → c.node_count ≡ 0
    → is_ok (initialize_participant a d node c).1 ≡ true
    → a.run_listener_thread ≡ false
    → IsLost (initialize_node a d node c)
unfolding initialize_node
initialize_node-IsLost a d node c none_yet done stays =
    let first = initialize_participant a d node c in
    let same : initialize_node a d node c ≡ first_node false first =
      ap
        (λ k.
          if not (k == 0)
          then (record c { node_count = (c.node_count + 1) % 2 ^ 64 }, ret_ok)
          else first_node a.run_listener_thread first)
        none_yet
      ∙ ap (λ b. first_node b first) stays in
    rw same (first_node-IsLost c first none_yet done (initialize_participant-IsAnswer a d node c))
