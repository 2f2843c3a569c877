-- ===== src/Event/Policy.antt =====
-- QoS policies in incompatibility reports: `convert_qos_policy` of rmw_gurumdds_cpp/src/qos.cpp.
use rmw_gurumdds.Base.{ℕ}

-- `dds_QosPolicyId_t`; `other` is any policy but the six named in the source.
pub data PolicyId : Type 0 where
  history reliability durability deadline lifespan liveliness : PolicyId
  other : ℕ → PolicyId

-- `rmw_qos_policy_kind_t`
pub data PolicyKind : Type 0 where
  policy_history policy_reliability policy_durability policy_deadline : PolicyKind
  policy_lifespan policy_liveliness policy_invalid : PolicyKind

unfoldable pub convert_qos_policy : PolicyId → PolicyKind
convert_qos_policy history = policy_history
convert_qos_policy reliability = policy_reliability
convert_qos_policy durability = policy_durability
convert_qos_policy deadline = policy_deadline
convert_qos_policy lifespan = policy_lifespan
convert_qos_policy liveliness = policy_liveliness
convert_qos_policy (other _) = policy_invalid
