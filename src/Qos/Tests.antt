-- ===== src/Qos/Tests.antt =====
-- QoS profiles at concrete inputs (rmw_gurumdds_cpp/src/qos.cpp).
use rmw_gurumdds.Base.{◌≡◌, refl, ◌==◌, ◌&&◌, arith}
use rmw_gurumdds.Base.Int.{pos}
use rmw_gurumdds.Qos.{
  RmwTime, Duration, TimeLib, keep_last, reliable, durability_system_default, automatic,
  dds_keep_all, dds_best_effort, dds_volatile, dds_manual_by_topic, convert_history,
  convert_reliability, convert_durability, convert_liveliness, rmw_time_to_dds, dds_duration_to_rmw,
}
use rmw_gurumdds.Qos.Times.{dds_duration_to_rmw-rmw_time_to_dds}
use rmw_gurumdds.Qos.Profile.{Profile, EntityQos, set_entity_qos_from_profile_generic}
use rmw_gurumdds.Qos.Kinds.{
  history_or_old, reliability_or_old, durability_or_old, liveliness_or_old,
  set_entity_qos_from_profile_generic-kinds,
}

abbrev times : TimeLib
times = record {
  infinite = record { sec = 9223372036; nsec = 854775807 };
  unspecified = record { sec = 0; nsec = 0 };
  time_equal = λ a b. (a.sec == b.sec) && (a.nsec == b.nsec);
  dds_infinite_sec = 2147483647;
  dds_infinite_nsec = 4294967295;
  clamp = λ a. a;
}

abbrev two_seconds : RmwTime
two_seconds = record { sec = 2; nsec = 5 }

abbrev profile : Profile
profile = record {
  history = keep_last;
  reliability = reliable;
  durability = durability_system_default;
  depth = 10;
  deadline = two_seconds;
  liveliness = automatic;
  liveliness_lease_duration = two_seconds;
}

abbrev no_duration : Duration
no_duration = record { sec = pos 0; nanosec = 0 }

abbrev old_qos : EntityQos
old_qos = record {
  history = dds_keep_all;
  reliability = dds_best_effort;
  durability = dds_volatile;
  history_depth = pos 1;
  max_samples = pos 1;
  max_instances = pos 1;
  max_samples_per_instance = pos 1;
  deadline = no_duration;
  liveliness = dds_manual_by_topic;
  lease_duration = no_duration;
}

dds_duration_to_rmw-rmw_time_to_dds_example :
    (dds_duration_to_rmw times (rmw_time_to_dds times two_seconds) ≡ two_seconds)
    × (dds_duration_to_rmw times (rmw_time_to_dds times times.infinite) ≡ times.infinite)
dds_duration_to_rmw-rmw_time_to_dds_example =
    dds_duration_to_rmw-rmw_time_to_dds times two_seconds refl refl refl (omega arith) (omega arith)
      refl

set_entity_qos_from_profile_generic-kinds_example :
    let q' = (set_entity_qos_from_profile_generic times 0 profile old_qos).0 in
    (convert_history q'.history ≡ history_or_old keep_last dds_keep_all)
    × (convert_reliability q'.reliability ≡ reliability_or_old reliable dds_best_effort)
    × (convert_durability q'.durability ≡ durability_or_old durability_system_default dds_volatile)
    × (convert_liveliness q'.liveliness ≡ liveliness_or_old automatic dds_manual_by_topic)
unfolding set_entity_qos_from_profile_generic
set_entity_qos_from_profile_generic-kinds_example =
    set_entity_qos_from_profile_generic-kinds times 0 profile old_qos refl
