-- ===== src/Qos/Profile.antt =====
-- `set_entity_qos_from_profile_generic` of rmw_gurumdds_cpp/src/qos.cpp.
use rmw_gurumdds.Base.{ℕ, Bool, true, false, not, ◌==◌, if◌then◌else◌, none, some}
use rmw_gurumdds.Base.Int.{ℤ, pos}
use rmw_gurumdds.Qos.{
  HistoryPolicy, keep_all, ReliabilityPolicy, DurabilityPolicy, LivelinessPolicy, HistoryKind,
  ReliabilityKind, DurabilityKind, LivelinessKind, RmwTime, Duration, TimeLib, to_int32,
  rmw_time_to_dds, set_history, set_reliability, set_durability, set_liveliness,
}

-- `rmw_qos_profile_t`
pub record Profile : Type 0 where
  pub history : HistoryPolicy
  pub reliability : ReliabilityPolicy
  pub durability : DurabilityPolicy
  pub depth : ℕ
  pub deadline : RmwTime
  pub liveliness : LivelinessPolicy
  pub liveliness_lease_duration : RmwTime

-- The fields of a writer's or a reader's QoS that the profile sets.
pub record EntityQos : Type 0 where
  pub history : HistoryKind
  pub reliability : ReliabilityKind
  pub durability : DurabilityKind
  pub history_depth : ℤ
  pub max_samples : ℤ
  pub max_instances : ℤ
  pub max_samples_per_instance : ℤ
  pub deadline : Duration
  pub liveliness : LivelinessKind
  pub lease_duration : Duration

abbrev pub is_keep_all : HistoryPolicy → Bool
is_keep_all keep_all = true
is_keep_all _ = false

-- `depth_default` is RMW_QOS_POLICY_DEPTH_SYSTEM_DEFAULT.
unfoldable pub set_depth : ℕ → Profile → EntityQos → EntityQos
unfolding to_int32
set_depth depth_default p q =
    if not (p.depth == depth_default)
    then record q {
      history_depth = to_int32 p.depth;
      max_samples = to_int32 p.depth;
      max_instances = pos 1;
      max_samples_per_instance = to_int32 p.depth;
    }
    else (if is_keep_all p.history
        then record q {
          max_samples = pos 4096;
          max_instances = pos 1;
          max_samples_per_instance = pos 4096;
        }
        else q)

-- `is_time_unspecified`
abbrev pub is_time_unspecified : TimeLib → RmwTime → Bool
is_time_unspecified t time = t.time_equal time t.unspecified

unfoldable pub set_deadline : TimeLib → Profile → EntityQos → EntityQos
unfolding rmw_time_to_dds
set_deadline t p q =
    if is_time_unspecified t p.deadline
    then q
    else record q { deadline = rmw_time_to_dds t p.deadline }

unfoldable pub set_lease_duration : TimeLib → Profile → EntityQos → EntityQos
unfolding rmw_time_to_dds
set_lease_duration t p q =
    if is_time_unspecified t p.liveliness_lease_duration
    then q
    else record q { lease_duration = rmw_time_to_dds t p.liveliness_lease_duration }

-- The early returns keep what was set before them.
unfoldable pub set_entity_qos_from_profile_generic :
    TimeLib → ℕ → Profile → EntityQos → EntityQos × Bool
unfolding set_history set_reliability set_durability set_liveliness set_depth set_deadline
    set_lease_duration
set_entity_qos_from_profile_generic t depth_default p q = elim (set_history p.history q.history) [
  | none ↦ (q, false)
  | some history ↦
      let q₁ : EntityQos = record q { history = history } in
      elim (set_reliability p.reliability q.reliability) [
        | none ↦ (q₁, false)
        | some reliability ↦
            let q₂ : EntityQos = record q₁ { reliability = reliability } in
            elim (set_durability p.durability q.durability) [
              | none ↦ (q₂, false)
              | some durability ↦
                  let q₃ : EntityQos =
                    set_deadline t p
                      (set_depth depth_default p (record q₂ { durability = durability })) in
                  elim (set_liveliness p.liveliness q.liveliness) [
                    | none ↦ (q₃, false)
                    | some liveliness ↦
                        (set_lease_duration t p (record q₃ { liveliness = liveliness }), true)
                  ]
            ]
      ]
]
