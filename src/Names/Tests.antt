-- ===== src/Names/Tests.antt =====
-- Names of topics at concrete inputs (rmw_gurumdds_cpp/src/demangle.cpp).
use rmw_gurumdds.Base.{ℕ, ◌≡◌, All, List, [], ◌∷◌, ◌++◌, some, none}
use rmw_gurumdds.Names.{
  slash, ros_service_requester_prefix, ros_service_response_prefix, ros_prefixes, request_suffix,
  reply_suffix, get_ros_prefix_if_exists, strip_ros_prefix_if_exists, demangle_service_from_topic,
}
use rmw_gurumdds.Names.Services.{
  demangle_service_from_topic-service, strip_ros_prefix_if_exists-prefixed,
}

-- "addRequest", a service whose name ends like the topic of its requests
abbrev service : List ℕ
service = 97 ∷ 100 ∷ 100 ∷ request_suffix

demangle_service_from_topic-service_example :
    (demangle_service_from_topic
        (ros_service_requester_prefix ++ (slash ∷ service) ++ request_suffix)
      ≡ slash ∷ service)
    × (demangle_service_from_topic
          (ros_service_response_prefix ++ (slash ∷ service) ++ reply_suffix)
        ≡ slash ∷ service)
demangle_service_from_topic-service_example = demangle_service_from_topic-service service

-- Names such as "rtaddRequest"
strip_ros_prefix_if_exists-prefixed_example :
    All
      (λ prefix_.
        (get_ros_prefix_if_exists (prefix_ ++ service) ≡ some [])
        × (strip_ros_prefix_if_exists (prefix_ ++ service) ≡ some (prefix_ ++ service))
        × (strip_ros_prefix_if_exists prefix_ ≡ none))
      ros_prefixes
strip_ros_prefix_if_exists-prefixed_example =
    strip_ros_prefix_if_exists-prefixed 97 (100 ∷ 100 ∷ request_suffix)
