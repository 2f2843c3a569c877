-- ===== src/Qos/Kinds.antt =====
-- The kinds that `set_entity_qos_from_profile_generic` of rmw_gurumdds_cpp/src/qos.cpp sets, and the
-- policies that rmw reads back of them.
use rmw_gurumdds.Base.{ℕ, Bool, true, ◌≡◌, arith, some}
use rmw_gurumdds.Qos.{
  HistoryPolicy, history_system_default, ReliabilityPolicy, reliability_system_default,
  DurabilityPolicy, durability_system_default, LivelinessPolicy, liveliness_system_default,
  HistoryKind, ReliabilityKind, DurabilityKind, LivelinessKind, TimeLib, set_history,
  set_reliability, set_durability, set_liveliness, convert_history, convert_reliability,
  convert_durability, convert_liveliness,
}
use rmw_gurumdds.Qos.Profile.{
  Profile, EntityQos, set_depth, set_deadline, set_lease_duration,
  set_entity_qos_from_profile_generic,
}

-- What rmw is to read back of a policy that was set where there was an old kind.
unfoldable pub history_or_old : HistoryPolicy → HistoryKind → HistoryPolicy
history_or_old history_system_default old = convert_history old
history_or_old policy old = policy

unfoldable pub reliability_or_old : ReliabilityPolicy → ReliabilityKind → ReliabilityPolicy
reliability_or_old reliability_system_default old = convert_reliability old
reliability_or_old policy old = policy

unfoldable pub durability_or_old : DurabilityPolicy → DurabilityKind → DurabilityPolicy
durability_or_old durability_system_default old = convert_durability old
durability_or_old policy old = policy

unfoldable pub liveliness_or_old : LivelinessPolicy → LivelinessKind → LivelinessPolicy
liveliness_or_old liveliness_system_default old = convert_liveliness old
liveliness_or_old policy old = policy

history-set :
    (policy : HistoryPolicy) (old new : HistoryKind)
    → set_history policy old ≡ some new
    → convert_history new ≡ history_or_old policy old
unfolding set_history convert_history history_or_old
history-set policy old new e = ground arith

reliability-set :
    (policy : ReliabilityPolicy) (old new : ReliabilityKind)
    → set_reliability policy old ≡ some new
    → convert_reliability new ≡ reliability_or_old policy old
unfolding set_reliability convert_reliability reliability_or_old
reliability-set policy old new e = ground arith

durability-set :
    (policy : DurabilityPolicy) (old new : DurabilityKind)
    → set_durability policy old ≡ some new
    → convert_durability new ≡ durability_or_old policy old
unfolding set_durability convert_durability durability_or_old
durability-set policy old new e = ground arith

liveliness-set :
    (policy : LivelinessPolicy) (old new : LivelinessKind)
    → set_liveliness policy old ≡ some new
    → convert_liveliness new ≡ liveliness_or_old policy old
unfolding set_liveliness convert_liveliness liveliness_or_old
liveliness-set policy old new e = ground arith

module _ (t : TimeLib) (depth_default : ℕ) (p : Profile) (q : EntityQos) where
  out : EntityQos × Bool
  unfolding set_entity_qos_from_profile_generic
  out = set_entity_qos_from_profile_generic t depth_default p q

  history-out : out.1 ≡ true → set_history p.history q.history ≡ some out.0.history
  unfolding out set_depth set_deadline set_lease_duration
  history-out done = ground arith

  reliability-out :
      out.1 ≡ true → set_reliability p.reliability q.reliability ≡ some out.0.reliability
  unfolding out set_depth set_deadline set_lease_duration
  reliability-out done = ground arith

  durability-out : out.1 ≡ true → set_durability p.durability q.durability ≡ some out.0.durability
  unfolding out set_depth set_deadline set_lease_duration
  durability-out done = ground arith

  liveliness-out : out.1 ≡ true → set_liveliness p.liveliness q.liveliness ≡ some out.0.liveliness
  unfolding out set_depth set_deadline set_lease_duration
  liveliness-out done = ground arith

  -- If setting a QoS from a profile returns true, then what rmw reads back of each of the four kinds is
  -- the policy of the profile, or where that is the system default, what it read back before.
  pub set_entity_qos_from_profile_generic-kinds :
      (set_entity_qos_from_profile_generic t depth_default p q).1 ≡ true
      → let q' = (set_entity_qos_from_profile_generic t depth_default p q).0 in
        (convert_history q'.history ≡ history_or_old p.history q.history)
        × (convert_reliability q'.reliability ≡ reliability_or_old p.reliability q.reliability)
        × (convert_durability q'.durability ≡ durability_or_old p.durability q.durability)
        × (convert_liveliness q'.liveliness ≡ liveliness_or_old p.liveliness q.liveliness)
  unfolding out
  set_entity_qos_from_profile_generic-kinds done = (
    history-set p.history q.history _ (history-out done),
    reliability-set p.reliability q.reliability _ (reliability-out done),
    durability-set p.durability q.durability _ (durability-out done),
    liveliness-set p.liveliness q.liveliness _ (liveliness-out done),
  )
