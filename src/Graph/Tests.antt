-- ===== src/Graph/Tests.antt =====
-- The graph of endpoints at concrete inputs (rmw_gurumdds_cpp/src/graph_cache.cpp,
-- rmw_gurumdds_cpp/src/rmw_context_impl.cpp).
use rmw_gurumdds.Base.{
  ℕ, ◌≡◌, refl, Bool, true, false, not, ◌||◌, ◌&&◌, ◌==◌, if◌then◌else◌, List, [], ◌∷◌, none, some,
  sym, ap₂, ◌∙◌, Bool-cases, inl, inr,
}
use rmw_gurumdds.Base.Int.{pos}
use rmw_gurumdds.Event.Converter.{ret_ok, ret_error}
use rmw_gurumdds.Qos.{Duration, TimeLib, dds_reliable, dds_volatile, dds_automatic, dds_keep_last}
use rmw_gurumdds.Rpc.Samples.{same_bytes, same_bytes_eq}
use rmw_gurumdds.Graph.{Policies, Node, CommonContext}
use rmw_gurumdds.Graph.Local.{
  LocalEndpoint, profile_of, convert_lifespan, remove_entity, add_entity, add_local_publisher,
  add_local_subscriber, publisher_added, on_publisher_created, on_service_created,
}
use rmw_gurumdds.Graph.Remote.{
  BuiltinEndpoint, guid_to_gid, on_publication_changed, on_subscription_changed,
}
use rmw_gurumdds.Graph.Laws.{same_entity, IsGraph}
use rmw_gurumdds.Graph.Rollback.{on_publisher_created_lem, on_service_created-reader}
use rmw_gurumdds.Graph.Watch.{drop_same, endpoints_gone}

-- A graph as a list of entities, each with the flag for a reader. It refuses entities with an empty
-- gid; the nodes' own lists are not kept, and adding to them fails for publishers and services.
abbrev has_entity : List (List ℕ × Bool) → List ℕ → Bool → Bool
has_entity [] g r = false
has_entity ((g', r') ∷ es) g r = same_entity g' r' g r || has_entity es g r

abbrev add_to : List ℕ → Bool → List (List ℕ × Bool) → List (List ℕ × Bool) × Bool
add_to [] r es = (es, false)
add_to (b ∷ g) r es = ((b ∷ g, r) ∷ es, true)

abbrev removed_from : List ℕ → Bool → List (List ℕ × Bool) → List (List ℕ × Bool)
removed_from g r [] = []
removed_from g r ((g', r') ∷ es) =
    if same_entity g r g' r' then removed_from g r es else (g', r') ∷ removed_from g r es

abbrev listed : CommonContext (List (List ℕ × Bool)) (List ℕ)
listed = record {
  gid = 1 ∷ 1 ∷ 1 ∷ [];
  add_entity = λ g e d p r s. add_to g r s;
  remove_entity = λ g r s. (removed_from g r s, true);
  add_node_graph = λ n s. (s, ret_ok);
  remove_node_graph = λ n s. (s, ret_ok);
  add_publisher_graph = λ g n s. (s, ret_error);
  remove_publisher_graph = λ g n s. (s, ret_ok);
  add_subscriber_graph = λ g n s. (s, ret_ok);
  remove_subscriber_graph = λ g n s. (s, ret_ok);
  add_service_graph = λ g h n s. (s, ret_error);
  remove_service_graph = λ g h n s. (s, ret_ok);
  add_client_graph = λ g h n s. (s, ret_ok);
  add_participant = λ g e s. s;
  remove_participant = λ g s. s;
  info_gid = λ i. i;
  update_participant_entities = λ i s. s;
}

added_to :
    (g : List ℕ) (r : Bool) (s : List (List ℕ × Bool))
    → (add_to g r s).1 ≡ true
    → (g' : List ℕ) (r' : Bool)
    → has_entity (add_to g r s).0 g' r' ≡ (same_entity g r g' r' || has_entity s g' r')
added_to [] r s done g' r' = absurd (cc)
added_to (b ∷ g) r s done g' r' = refl

not_added_to :
    (g : List ℕ) (r : Bool) (s : List (List ℕ × Bool))
    → (add_to g r s).1 ≡ false
    → (g' : List ℕ) (r' : Bool) → has_entity (add_to g r s).0 g' r' ≡ has_entity s g' r'
not_added_to [] r s failed g' r' = refl
not_added_to (b ∷ g) r s failed g' r' = absurd (cc)

same_entity_eq :
    (g : List ℕ) (r : Bool) (h : List ℕ) (q : Bool) → same_entity g r h q ≡ true → (g ≡ h) × (r ≡ q)
same_entity_eq g true h true e = (same_bytes_eq g h e, refl)
same_entity_eq g true h false e = absurd (cc)
same_entity_eq g false h true e = absurd (cc)
same_entity_eq g false h false e = (same_bytes_eq g h e, refl)

drop_false : (a : Bool) → false ≡ (a && false)
drop_false true = refl
drop_false false = refl

has_removed :
    (g : List ℕ) (r : Bool) (s : List (List ℕ × Bool)) (g' : List ℕ) (r' : Bool)
    → has_entity (removed_from g r s) g' r' ≡ (not (same_entity g r g' r') && has_entity s g' r')
has_removed g r [] g' r' = drop_false (not (same_entity g r g' r'))
has_removed g r ((h, q) ∷ es) g' r' = elim (Bool-cases (same_entity g r h q)) [
  | inl same ↦
      let (g≡h, r≡q) = same_entity_eq g r h q same in
      rw same (
        has_removed g r es g' r'
        ∙ sym (drop_same (same_entity g r g' r') (has_entity es g' r'))
        ∙ ap₂ (λ x y. not (same_entity g r g' r') && (same_entity x y g' r' || has_entity es g' r'))
            g≡h r≡q)
  | inr other ↦ elim (Bool-cases (same_entity h q g' r')) [
    | inl here ↦
        let (h≡g', q≡r') = same_entity_eq h q g' r' here in
        let outside : same_entity g r g' r' ≡ false =
          sym (ap₂ (λ x y. same_entity g r x y) h≡g' q≡r') ∙ other in
        rw (other, here, outside) refl
    | inr there ↦ rw (other, there) (has_removed g r es g' r')
  ]
]

listed-IsGraph : IsGraph listed has_entity
listed-IsGraph = record {
  added = λ g e d p r s. added_to g r s;
  not_added = λ g e d p r s. not_added_to g r s;
  removed = has_removed;
  publisher_graph = λ g n s g' r'. refl;
  service_graph = λ g h n s g' r'. refl;
}

abbrev times : TimeLib
times = record {
  infinite = record { sec = 9223372036; nsec = 854775807 };
  unspecified = record { sec = 0; nsec = 0 };
  time_equal = λ a b. (a.sec == b.sec) && (a.nsec == b.nsec);
  dds_infinite_sec = 2147483647;
  dds_infinite_nsec = 4294967295;
  clamp = λ a. a;
}

abbrev second_ : Duration
second_ = record { sec = pos 1; nanosec = 0 }

abbrev some_policies : Policies
some_policies = record {
  history = some (dds_keep_last, 10);
  reliability = dds_reliable;
  durability = dds_volatile;
  deadline = second_;
  liveliness = dds_automatic;
  lease_duration = second_;
  lifespan = some second_;
}

abbrev local_with : List ℕ → LocalEndpoint
local_with g = record {
  gid = g;
  endpoint = record { topic_name = 116 ∷ []; type_name = 84 ∷ []; type_hash = 9 ∷ [] };
  policies = some some_policies;
}

abbrev some_node : Node
some_node = record { name = 110 ∷ []; namespace_ = 47 ∷ [] }

-- The graph does not take the publisher's node, so the entity is removed again.
on_publisher_created_lem_example :
    has_entity
      (on_publisher_created listed times 0 (local_with (5 ∷ [])) some_node ((6 ∷ [], true) ∷ [])).0
      (5 ∷ [])
      false
    ≡ false
unfolding on_publisher_created add_local_publisher add_entity publisher_added remove_entity
    profile_of convert_lifespan same_bytes
on_publisher_created_lem_example =
    on_publisher_created_lem listed has_entity listed-IsGraph times 0 (local_with (5 ∷ []))
      some_node ((6 ∷ [], true) ∷ []) refl (5 ∷ []) false

-- The last step fails, and the reader of requests stays.
on_service_created-reader_example :
    has_entity
      (on_service_created listed times 0 (local_with (5 ∷ [])) (local_with (6 ∷ [])) some_node []).0
      (5 ∷ [])
      true
    ≡ true
unfolding add_local_subscriber add_entity
on_service_created-reader_example =
    on_service_created-reader listed has_entity listed-IsGraph times 0 (local_with (5 ∷ []))
      (local_with (6 ∷ [])) some_node [] refl

abbrev remote_writer : BuiltinEndpoint
remote_writer = record {
  guid = 2 ∷ 1 ∷ [];
  participant_guid = 2 ∷ 0 ∷ [];
  topic_name = 116 ∷ [];
  type_name = 84 ∷ [];
  type_hash = none;
  policies = some_policies;
}

endpoints_gone_example :
    ((g : List ℕ) (r : Bool)
      → has_entity
          (on_publication_changed listed (0 ∷ []) times 0 [] remote_writer true (
            on_publication_changed listed
              (0 ∷ [])
              times
              0
              []
              remote_writer
              false
              ((6 ∷ [], true) ∷ [])))
          g
          r
        ≡ (not (same_entity (2 ∷ 1 ∷ 0 ∷ []) false g r) && has_entity ((6 ∷ [], true) ∷ []) g r))
    × ((g : List ℕ)
        → has_entity
            (on_subscription_changed listed
              (0 ∷ [])
              times
              0
              []
              remote_writer
              true
              ((6 ∷ [], true) ∷ []))
            g
            true
          ≡ has_entity ((6 ∷ [], true) ∷ []) g true)
unfolding guid_to_gid same_bytes
endpoints_gone_example =
    endpoints_gone listed has_entity listed-IsGraph times 0 (0 ∷ []) [] remote_writer
      ((6 ∷ [], true) ∷ []) (record { participant = refl; prefix_ = refl })
