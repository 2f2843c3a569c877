-- ===== src/Names/Services.antt =====
-- The names of the topics of services, and prefixes: rmw_gurumdds_cpp/src/demangle.cpp and
-- rmw_gurumdds_cpp/src/namespace_prefix.cpp.
use rmw_gurumdds.Base.{
  if◌then◌else◌, ℕ, ◌-◌, ◌≡◌, refl, ap, arith, length, length-append, take-append, All, List, [],
  ◌∷◌, ◌++◌, ◌==◌, none, some,
}
use rmw_gurumdds.Names.{
  slash, ros_service_requester_prefix, ros_service_response_prefix, ros_prefixes, request_suffix,
  reply_suffix, after_prefix, resolve_prefix, find_prefix, get_ros_prefix_if_exists,
  strip_ros_prefix_if_exists, cut_suffix, demangle_service, demangle_service_request_from_topic,
  demangle_service_reply_from_topic, demangle_service_from_topic,
}
use rmw_gurumdds.Names.Strings.{rfind-append}

cut_suffix-append :
    (name : List ℕ) (s : ℕ) (suffix : List ℕ) → cut_suffix (name ++ s ∷ suffix) (s ∷ suffix) ≡ name
unfolding cut_suffix
cut_suffix-append name s suffix =
    let end : (length (name ++ s ∷ suffix) - length name - length (s ∷ suffix) == 0) ≡ ◌==◌ 0 0 =
      ap (λ n. n == 0) {y = 0} (omega (arith, length-append name (s ∷ suffix))) in
    rw (rfind-append name s suffix, cut_suffix, end) (take-append name (s ∷ suffix))

-- A topic name that is made of the prefix for requests or replies, a service name that begins with a
-- slash, and the suffix for requests or replies is turned back into that service name, also where the
-- name contains the suffix itself.
pub demangle_service_from_topic-service :
    (name : List ℕ)
    → (demangle_service_from_topic
          (ros_service_requester_prefix ++ (slash ∷ name) ++ request_suffix)
        ≡ slash ∷ name)
      × (demangle_service_from_topic (ros_service_response_prefix ++ (slash ∷ name) ++ reply_suffix)
          ≡ slash ∷ name)
unfolding demangle_service_from_topic demangle_service_request_from_topic
    demangle_service_reply_from_topic demangle_service resolve_prefix after_prefix
demangle_service_from_topic-service name = (
  cut_suffix-append (slash ∷ name) 82 _,
  rw (cut_suffix-append (slash ∷ name) 82 (101 ∷ 112 ∷ 108 ∷ 121 ∷ []), demangle_service_from_topic)
      refl,
)

-- For each ROS prefix: of a topic name that has the prefix, a slash and any rest, the prefix is found,
-- and stripping leaves the slash and the rest; of a name that has another character behind the prefix,
-- no prefix is found, and stripping leaves the whole name; on a name that is the prefix itself,
-- stripping throws std::out_of_range.
pub strip_ros_prefix_if_exists-prefixed :
    (c : ℕ) (rest : List ℕ)
    → All
        (λ prefix_.
          (get_ros_prefix_if_exists (prefix_ ++ c ∷ rest)
            ≡ some (if c == slash then prefix_ else []))
          × (strip_ros_prefix_if_exists (prefix_ ++ c ∷ rest)
              ≡ some (if c == slash then slash ∷ rest else prefix_ ++ c ∷ rest))
          × (strip_ros_prefix_if_exists prefix_ ≡ none))
        ros_prefixes
unfolding get_ros_prefix_if_exists strip_ros_prefix_if_exists find_prefix after_prefix
strip_ros_prefix_if_exists-prefixed c rest = (
  (ground arith, ground arith, refl),
  ((ground arith, ground arith, refl), ((ground arith, ground arith, refl), tt)),
)
