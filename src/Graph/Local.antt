-- ===== src/Graph/Local.antt =====
-- Endpoints and nodes of this process (rmw_gurumdds_cpp/src/graph_cache.cpp).
use rmw_gurumdds.Base.{ℕ, Bool, true, false, ◌&&◌, if◌then◌else◌, List, Option, none, some}
use rmw_gurumdds.Event.Converter.{RmwRet, ret_ok, ret_error}
use rmw_gurumdds.Qos.{
  history_unknown, RmwTime, Duration, TimeLib, dds_duration_to_rmw, convert_history,
  convert_reliability, convert_durability, convert_liveliness,
}
use rmw_gurumdds.Graph.{EntityProfile, Policies, Endpoint, Node, CommonContext}

-- `rc == RMW_RET_OK`
abbrev pub is_ok : RmwRet → Bool
is_ok ret_ok = true
is_ok _ = false

-- `convert_lifespan`
unfoldable pub convert_lifespan : TimeLib → Option Duration → RmwTime
convert_lifespan t none = t.infinite
convert_lifespan t (some d) = dds_duration_to_rmw t d

-- `qos_profile`; `depth_default` is RMW_QOS_POLICY_DEPTH_SYSTEM_DEFAULT. The cast of a depth to `size_t`
-- is done by the caller.
unfoldable pub profile_of : TimeLib → ℕ → Policies → EntityProfile
unfolding convert_lifespan
profile_of t depth_default p = record {
  history = elim p.history [ none ↦ history_unknown | some (kind, depth) ↦ convert_history kind ];
  depth = elim p.history [ none ↦ depth_default | some (kind, depth) ↦ depth ];
  reliability = convert_reliability p.reliability;
  durability = convert_durability p.durability;
  deadline = dds_duration_to_rmw t p.deadline;
  lifespan = convert_lifespan t p.lifespan;
  liveliness = convert_liveliness p.liveliness;
  liveliness_lease_duration = dds_duration_to_rmw t p.lease_duration;
}

-- What DDS answers about a writer or a reader: its topic, and its policies if initializing and
-- getting the QoS both succeed.
pub record LocalEndpoint : Type 0 where
  pub gid : List ℕ
  pub endpoint : Endpoint
  pub policies : Option Policies

abbrev pub to_ret : Bool → RmwRet
to_ret true = ret_ok
to_ret false = ret_error

module _ {S Info : Type 0} (common : CommonContext S Info) where
  unfoldable pub remove_entity : List ℕ → Bool → S → S × RmwRet
  remove_entity gid is_reader s =
      let (s, done) = common.remove_entity gid is_reader s in (s, to_ret done)

  module _ (t : TimeLib) (depth_default : ℕ) where
    unfoldable pub add_entity : List ℕ → List ℕ → Endpoint → Policies → Bool → S → S × RmwRet
    unfolding profile_of
    add_entity endp_gid dp_gid e p is_reader s =
        let (s, done) =
          common.add_entity endp_gid e dp_gid (profile_of t depth_default p) is_reader s in
        (s, to_ret done)

    -- `add_local_publisher`; it passes the lifespan of the writer.
    unfoldable pub add_local_publisher : LocalEndpoint → S → S × RmwRet
    unfolding add_entity
    add_local_publisher w s = elim w.policies [
      | none ↦ (s, ret_error)
      | some p ↦ add_entity w.gid common.gid w.endpoint p false s
    ]

    -- `add_local_subscriber`; it passes no lifespan.
    unfoldable pub add_local_subscriber : LocalEndpoint → S → S × RmwRet
    unfolding add_entity
    add_local_subscriber r s = elim r.policies [
      | none ↦ (s, ret_error)
      | some p ↦ add_entity r.gid common.gid r.endpoint (record p { lifespan = none }) true s
    ]

    unfoldable pub on_node_created : Node → S → S × RmwRet
    on_node_created node s =
        let (s, rc) = common.add_node_graph node s in (s, if is_ok rc then ret_ok else ret_error)

    unfoldable pub on_node_deleted : Node → S → S × RmwRet
    on_node_deleted node s =
        let (s, rc) = common.remove_node_graph node s in (s, if is_ok rc then ret_ok else ret_error)

    -- What follows the first call of `on_publisher_created`.
    unfoldable pub publisher_added : LocalEndpoint → Node → S → RmwRet → S × RmwRet
    unfolding remove_entity
    publisher_added pub_ node s rc =
        let (s', rc') = common.add_publisher_graph pub_.gid node s in
        if is_ok rc
        then (if is_ok rc' then (s', ret_ok) else ((remove_entity pub_.gid false s').0, ret_error))
        else (s, ret_error)

    unfoldable pub on_publisher_created : LocalEndpoint → Node → S → S × RmwRet
    unfolding add_local_publisher publisher_added
    on_publisher_created pub_ node s =
        let (s, rc) = add_local_publisher pub_ s in publisher_added pub_ node s rc

    unfoldable pub on_publisher_deleted : LocalEndpoint → Node → S → S × RmwRet
    unfolding remove_entity
    on_publisher_deleted pub_ node s =
        let (s, rc) = remove_entity pub_.gid false s in
        let (s', rc') = common.remove_publisher_graph pub_.gid node s in
        if is_ok rc then (s', if is_ok rc' then ret_ok else ret_error) else (s, ret_error)

    -- What follows the first call of `on_subscriber_created`.
    unfoldable pub subscriber_added : LocalEndpoint → Node → S → RmwRet → S × RmwRet
    unfolding remove_entity
    subscriber_added sub node s rc =
        let (s', rc') = common.add_subscriber_graph sub.gid node s in
        if is_ok rc
        then (if is_ok rc' then (s', ret_ok) else ((remove_entity sub.gid false s').0, ret_error))
        else ((remove_entity sub.gid true s).0, ret_error)

    unfoldable pub on_subscriber_created : LocalEndpoint → Node → S → S × RmwRet
    unfolding add_local_subscriber subscriber_added
    on_subscriber_created sub node s =
        let (s, rc) = add_local_subscriber sub s in subscriber_added sub node s rc

    unfoldable pub on_subscriber_deleted : LocalEndpoint → Node → S → S × RmwRet
    unfolding remove_entity
    on_subscriber_deleted sub node s =
        let (s, rc) = remove_entity sub.gid true s in
        let (s', rc') = common.remove_subscriber_graph sub.gid node s in
        if is_ok rc then (s', if is_ok rc' then ret_ok else ret_error) else (s, ret_error)

    -- The scope exit of `on_service_created` and `on_client_created`. Its lambda has copies of the two
    -- flags, taken where both are still false.
    unfoldable pub entities_reset : Bool → Bool → List ℕ → List ℕ → S → S
    unfolding remove_entity
    entities_reset add_sub add_pub sub_gid pub_gid s =
        let s = (if add_sub then (remove_entity sub_gid true s).0 else s) in
        if add_pub then (remove_entity pub_gid false s).0 else s

    abbrev pub reset_copies : List ℕ → List ℕ → S → S
    reset_copies sub_gid pub_gid s = entities_reset false false sub_gid pub_gid s

    -- The three steps of both functions; `add_graph` is the last one.
    unfoldable pub register_pair : (S → S × RmwRet) → LocalEndpoint → LocalEndpoint → S → S × RmwRet
    unfolding add_local_subscriber add_local_publisher entities_reset
    register_pair add_graph sub pub_ s =
        let (s₁, rc₁) = add_local_subscriber sub s in
        let (s₂, rc₂) = add_local_publisher pub_ s₁ in
        let (s₃, rc₃) = add_graph s₂ in
        if is_ok rc₁
        then if is_ok rc₂
          then if is_ok rc₃ then (s₃, ret_ok) else (reset_copies sub.gid pub_.gid s₃, ret_error)
          else (reset_copies sub.gid pub_.gid s₂, ret_error)
        else (reset_copies sub.gid pub_.gid s₁, ret_error)

    -- `sub` is the reader of requests and `pub_` the writer of responses.
    unfoldable pub on_service_created : LocalEndpoint → LocalEndpoint → Node → S → S × RmwRet
    unfolding register_pair
    on_service_created sub pub_ node s =
        register_pair (common.add_service_graph sub.gid pub_.gid node) sub pub_ s

    -- `sub` is the reader of responses and `pub_` the writer of requests.
    unfoldable pub on_client_created : LocalEndpoint → LocalEndpoint → Node → S → S × RmwRet
    unfolding register_pair
    on_client_created sub pub_ node s =
        register_pair (common.add_client_graph pub_.gid sub.gid node) sub pub_ s

    -- `failed` is false from the start, and `&&` keeps it false.
    unfoldable pub on_service_deleted : LocalEndpoint → LocalEndpoint → Node → S → S × RmwRet
    unfolding remove_entity
    on_service_deleted sub pub_ node s =
        let failed = false in
        let (s, rc) = remove_entity sub.gid true s in
        let failed = failed && is_ok rc in
        let (s, rc) = remove_entity pub_.gid false s in
        let failed = failed && is_ok rc in
        let (s, rc) = common.remove_service_graph sub.gid pub_.gid node s in
        let failed = failed && is_ok rc in (s, if failed then ret_error else ret_ok)

    unfoldable pub on_client_deleted : LocalEndpoint → LocalEndpoint → Node → S → S × RmwRet
    unfolding remove_entity
    on_client_deleted sub pub_ node s =
        let failed = false in
        let (s, rc) = remove_entity sub.gid true s in
        let failed = failed && is_ok rc in
        let (s, rc) = remove_entity pub_.gid false s in
        let failed = failed && is_ok rc in
        let (s, rc) = common.remove_service_graph sub.gid pub_.gid node s in
        let failed = failed && is_ok rc in (s, if failed then ret_error else ret_ok)
