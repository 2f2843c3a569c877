-- ===== src/Names.antt =====
-- The names of topics and services: rmw_gurumdds_cpp/src/namespace_prefix.cpp and, of
-- rmw_gurumdds_cpp/src/demangle.cpp, the functions on topic names. A string is the list of its
-- character codes.
pub mod Strings
pub mod Services
mod Tests
use rmw_gurumdds.Base.{
  ℕ, suc, ◌+◌, ◌-◌, Bool, ◌==◌, if◌then◌else◌, length, take, List, [], ◌∷◌, ◌++◌, Option, none,
  some,
}

abbrev pub slash : ℕ
slash = 47

-- "rt", "rq" and "rr"
abbrev pub ros_topic_prefix : List ℕ
ros_topic_prefix = 114 ∷ 116 ∷ []

abbrev pub ros_service_requester_prefix : List ℕ
ros_service_requester_prefix = 114 ∷ 113 ∷ []

abbrev pub ros_service_response_prefix : List ℕ
ros_service_response_prefix = 114 ∷ 114 ∷ []

abbrev pub ros_prefixes : List (List ℕ)
ros_prefixes = ros_topic_prefix ∷ ros_service_requester_prefix ∷ ros_service_response_prefix ∷ []

-- "Request" and "Reply"
abbrev pub request_suffix : List ℕ
request_suffix = 82 ∷ 101 ∷ 113 ∷ 117 ∷ 101 ∷ 115 ∷ 116 ∷ []

abbrev pub reply_suffix : List ℕ
reply_suffix = 82 ∷ 101 ∷ 112 ∷ 108 ∷ 121 ∷ []

-- `name.rfind(prefix, 0) == 0`, with what follows the prefix.
unfoldable pub after_prefix : List ℕ → List ℕ → Option (List ℕ)
after_prefix [] name = some name
after_prefix (p ∷ ps) [] = none
after_prefix (p ∷ ps) (c ∷ name) = let rest = after_prefix ps name in if c == p then rest else none

-- `name.rfind(suffix)`: where the last occurrence begins; `none` is npos.
unfoldable pub rfind : List ℕ → List ℕ → Option ℕ
unfolding after_prefix
rfind suffix [] = elim suffix [ [] ↦ some 0 | c ∷ cs ↦ none ]
rfind suffix (c ∷ name) = elim (rfind suffix name) [
  | some i ↦ some (suc i)
  | none ↦ elim (after_prefix suffix (c ∷ name)) [ none ↦ none | some rest ↦ some 0 ]
]

unfoldable pub resolve_prefix : List ℕ → List ℕ → List ℕ
unfolding after_prefix
resolve_prefix name prefix_ = elim (after_prefix (prefix_ ++ slash ∷ []) name) [
  | none ↦ []
  | some rest ↦ slash ∷ rest
]

-- The loops of the two functions below: the first prefix with a slash behind it, and what follows
-- that prefix. The outer `none` is std::out_of_range, which `at` throws on a name that is a prefix.
unfoldable pub find_prefix : List (List ℕ) → List ℕ → Option (Option (List ℕ × List ℕ))
unfolding after_prefix
find_prefix [] topic_name = some none
find_prefix (prefix_ ∷ prefixes) topic_name =
    let others = find_prefix prefixes topic_name in
    elim (after_prefix prefix_ topic_name) [
      | none ↦ others
      | some [] ↦ none
      | some (c ∷ rest) ↦ if c == slash then some (some (prefix_, c ∷ rest)) else others
    ]

unfoldable pub get_ros_prefix_if_exists : List ℕ → Option (List ℕ)
unfolding find_prefix
get_ros_prefix_if_exists topic_name = elim (find_prefix ros_prefixes topic_name) [
  | none ↦ none
  | some none ↦ some []
  | some (some (prefix_, rest)) ↦ some prefix_
]

-- Also `demangle_if_ros_topic`.
unfoldable pub strip_ros_prefix_if_exists : List ℕ → Option (List ℕ)
unfolding find_prefix
strip_ros_prefix_if_exists topic_name = elim (find_prefix ros_prefixes topic_name) [
  | none ↦ none
  | some none ↦ some topic_name
  | some (some (prefix_, rest)) ↦ some rest
]

unfoldable pub demangle_ros_topic_from_topic : List ℕ → List ℕ
unfolding resolve_prefix
demangle_ros_topic_from_topic topic_name = resolve_prefix topic_name ros_topic_prefix

-- Where the suffix is found: at the end, or else the name is refused.
unfoldable pub cut_suffix : List ℕ → List ℕ → List ℕ
unfolding rfind
cut_suffix service_name suffix = elim (rfind suffix service_name) [
  | none ↦ []
  | some suffix_position ↦
      if length service_name - suffix_position - length suffix == 0
      then take suffix_position service_name
      else []
]

-- `_demangle_service_from_topic`
unfoldable pub demangle_service : List ℕ → List ℕ → List ℕ → List ℕ
unfolding resolve_prefix cut_suffix
demangle_service prefix_ topic_name suffix = elim (resolve_prefix topic_name prefix_) [
  | [] ↦ []
  | c ∷ cs ↦ cut_suffix (c ∷ cs) suffix
]

unfoldable pub demangle_service_request_from_topic : List ℕ → List ℕ
unfolding demangle_service
demangle_service_request_from_topic topic_name =
    demangle_service ros_service_requester_prefix topic_name request_suffix

unfoldable pub demangle_service_reply_from_topic : List ℕ → List ℕ
unfolding demangle_service
demangle_service_reply_from_topic topic_name =
    demangle_service ros_service_response_prefix topic_name reply_suffix

unfoldable pub demangle_service_from_topic : List ℕ → List ℕ
unfolding demangle_service_request_from_topic demangle_service_reply_from_topic
demangle_service_from_topic topic_name = elim (demangle_service_reply_from_topic topic_name) [
  | [] ↦ demangle_service_request_from_topic topic_name
  | c ∷ cs ↦ c ∷ cs
]
