-- ===== src/Context/Ready.antt =====
-- The invariant of a context that has nodes (rmw_gurumdds_cpp/src/rmw_context_impl.cpp,
-- rmw_gurumdds_cpp/src/rmw_node.cpp).
use rmw_gurumdds.Base.{ℕ, ◌≡◌, refl, Bool, true, false, List, Option, none, some}
use mathlib.Core.Bool.{false≢true}
use rmw_gurumdds.Graph.Local.{is_ok}
use rmw_gurumdds.Context.{Context}
use rmw_gurumdds.Context.Initialize.{
  Creation, create_participant, create_publisher, create_subscriber, initialize_graph, attach_graph,
  create_entities,
}
use rmw_gurumdds.Context.Retry.{and_then-after}

abbrev pub is_set : Option ℕ → Bool
is_set none = false
is_set (some p) = true

-- Everything that publishers, subscriptions and the graph rely on is there.
pub record IsReady (c : Context) : Type 0 where
  pub has_participant : is_set c.participant ≡ true
  pub has_publisher : is_set c.publisher ≡ true
  pub has_subscriber : is_set c.subscriber ≡ true
  pub has_discovery_pub : is_set c.discovery_pub ≡ true
  pub has_discovery_sub : is_set c.discovery_sub ≡ true
  pub has_guard_condition : is_set c.graph_guard_condition ≡ true
  pub has_callback : c.on_change_callback ≡ true
  pub has_context : c.entity_context ≡ true

record HasParticipant (c : Context) : Type 0 where
  participant_set : is_set c.participant ≡ true

record HasPublisher (c : Context) : Type 0 where
  participant_set : is_set c.participant ≡ true
  publisher_set : is_set c.publisher ≡ true

record HasSubscriber (c : Context) : Type 0 where
  participant_set : is_set c.participant ≡ true
  publisher_set : is_set c.publisher ≡ true
  subscriber_set : is_set c.subscriber ≡ true

participant_there :
    (p : Option ℕ) (c : Context)
    → is_ok (create_participant p c).1 ≡ true
    → HasParticipant (create_participant p c).0
unfolding create_participant
participant_there none c done = absurd (false≢true done)
participant_there (some p) c done = record { participant_set = refl }

publisher_there :
    (q : Bool) (p : Option ℕ) (f : Bool) (c : Context)
    → HasParticipant c
    → is_ok (create_publisher q p f c).1 ≡ true
    → HasPublisher (create_publisher q p f c).0
unfolding create_publisher
publisher_there false p f c h done = absurd (false≢true done)
publisher_there true none f c h done = absurd (false≢true done)
publisher_there true (some p) f c h done = record {
  participant_set = h.participant_set;
  publisher_set = refl;
}

subscriber_there :
    (q : Bool) (p : Option ℕ) (f : Bool) (c : Context)
    → HasPublisher c
    → is_ok (create_subscriber q p f c).1 ≡ true
    → HasSubscriber (create_subscriber q p f c).0
unfolding create_subscriber
subscriber_there false p f c h done = absurd (false≢true done)
subscriber_there true none f c h done = absurd (false≢true done)
subscriber_there true (some p) f c h done = record {
  participant_set = h.participant_set;
  publisher_set = h.publisher_set;
  subscriber_set = refl;
}

graph_there :
    (p s g : Option ℕ) (c : Context)
    → HasSubscriber c
    → is_ok (attach_graph p s g c).1 ≡ true
    → IsReady (attach_graph p s g c).0
unfolding attach_graph initialize_graph
graph_there none s g c h done = absurd (false≢true done)
graph_there (some p) none g c h done = absurd (false≢true done)
graph_there (some p) (some s) none c h done = absurd (false≢true done)
graph_there (some p) (some s) (some g) c h done = record {
  has_participant = h.participant_set;
  has_publisher = h.publisher_set;
  has_subscriber = h.subscriber_set;
  has_discovery_pub = refl;
  has_discovery_sub = refl;
  has_guard_condition = refl;
  has_callback = refl;
  has_context = refl;
}

pub create_entities-IsReady :
    (a : Creation) (user_data : List ℕ) (c : Context)
    → is_ok (create_entities a user_data c).1 ≡ true
    → IsReady (create_entities a user_data c).0
unfolding create_entities attach_graph
create_entities-IsReady a user_data c =
    and_then-after HasParticipant IsReady (create_participant (a.create_participant user_data) c) _
      (participant_there (a.create_participant user_data) c)
      (λ c h.
        and_then-after HasPublisher IsReady
          (create_publisher a.default_publisher_qos a.create_publisher a.finalize_publisher_qos c) _
          (publisher_there a.default_publisher_qos a.create_publisher a.finalize_publisher_qos c h)
          (λ c h.
            and_then-after HasSubscriber IsReady
              (create_subscriber a.default_subscriber_qos a.create_subscriber
                a.finalize_subscriber_qos c)
              _
              (subscriber_there a.default_subscriber_qos a.create_subscriber
                a.finalize_subscriber_qos c h)
              (λ c h.
                graph_there a.create_discovery_pub a.create_discovery_sub a.create_guard_condition c
                  h)))
