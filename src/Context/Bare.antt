-- ===== src/Context/Bare.antt =====
-- What initializing a participant leaves as it was (rmw_gurumdds_cpp/src/rmw_context_impl.cpp).
use rmw_gurumdds.Base.{
  ℕ, ◌≡◌, refl, Bool, true, false, not, ltb, if◌then◌else◌, List, length, Option, none, some,
}
use rmw_gurumdds.Event.Converter.{RmwRet, ret_error}
use rmw_gurumdds.Context.{Context}
use rmw_gurumdds.Context.Initialize.{
  Creation, remote_support, create_participant, create_publisher, create_subscriber,
  initialize_graph, attach_graph, create_entities, participant_steps,
}
use rmw_gurumdds.Context.Retry.{and_then-keeps, bare}

step_bare :
    (go : Bool) (c : Context) (x : Context × RmwRet)
    → bare x.0 ≡ bare c
    → bare (if go then (c, ret_error) else x).0 ≡ bare c
step_bare true c x h = refl
step_bare false c x h = h

participant_bare : (p : Option ℕ) (c : Context) → bare (create_participant p c).0 ≡ bare c
unfolding create_participant
participant_bare none c = refl
participant_bare (some p) c = refl

publisher_bare :
    (q : Bool) (p : Option ℕ) (f : Bool) (c : Context) → bare (create_publisher q p f c).0 ≡ bare c
unfolding create_publisher
publisher_bare false p f c = refl
publisher_bare true none f c = refl
publisher_bare true (some p) f c = refl

subscriber_bare :
    (q : Bool) (p : Option ℕ) (f : Bool) (c : Context) → bare (create_subscriber q p f c).0 ≡ bare c
unfolding create_subscriber
subscriber_bare false p f c = refl
subscriber_bare true none f c = refl
subscriber_bare true (some p) f c = refl

graph_bare : (p s g : Option ℕ) (c : Context) → bare (attach_graph p s g c).0 ≡ bare c
unfolding attach_graph initialize_graph
graph_bare none s g c = refl
graph_bare (some p) none g c = refl
graph_bare (some p) (some s) none c = refl
graph_bare (some p) (some s) (some g) c = refl

create_entities-bare :
    (a : Creation) (user_data : List ℕ) (c : Context)
    → bare (create_entities a user_data c).0 ≡ bare c
unfolding create_entities
create_entities-bare a user_data c =
    and_then-keeps bare c (create_participant (a.create_participant user_data) c) _
      (participant_bare (a.create_participant user_data) c)
      (λ c.
        and_then-keeps bare c
          (create_publisher a.default_publisher_qos a.create_publisher a.finalize_publisher_qos c) _
          (publisher_bare a.default_publisher_qos a.create_publisher a.finalize_publisher_qos c)
          (λ c.
            and_then-keeps bare c
              (create_subscriber a.default_subscriber_qos a.create_subscriber
                a.finalize_subscriber_qos c)
              _
              (subscriber_bare a.default_subscriber_qos a.create_subscriber
                a.finalize_subscriber_qos c)
              (λ c.
                graph_bare a.create_discovery_pub a.create_discovery_sub a.create_guard_condition
                  c)))

pub participant_steps-bare :
    (a : Creation) (user_data : List ℕ) (c : Context)
    → bare (participant_steps a user_data c).0 ≡ bare c
unfolding participant_steps
participant_steps-bare a user_data c = step_bare (not a.factory) c _ (
    step_bare (not (remote_support a.on_remote)) c _ (
      step_bare (not a.default_participant_qos) c _ (
        step_bare (ltb a.user_data_capacity (length user_data)) c _
          (create_entities-bare a user_data c))))
