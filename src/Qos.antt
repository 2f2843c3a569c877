-- ===== src/Qos.antt =====
-- QoS profiles: rmw_gurumdds_cpp/src/qos.cpp, without the user data of writers and readers.
pub mod Times
pub mod Profile
pub mod Kinds
mod Tests
use rmw_gurumdds.Base.{
  ℕ, ◌-◌, ◌%◌, ◌^◌, ltb, Bool, true, false, ◌==◌, ◌&&◌, if◌then◌else◌, Option, none, some,
}
use rmw_gurumdds.Base.Int.{ℤ, pos, negsuc}

-- The policies of rmw. `unknown` is any value that the switches do not name.
pub data HistoryPolicy : Type 0 where
  keep_last keep_all history_system_default history_unknown : HistoryPolicy

pub data ReliabilityPolicy : Type 0 where
  best_effort reliable reliability_system_default reliability_unknown : ReliabilityPolicy

pub data DurabilityPolicy : Type 0 where
  transient_local volatile durability_system_default durability_unknown : DurabilityPolicy

pub data LivelinessPolicy : Type 0 where
  automatic manual_by_topic liveliness_system_default liveliness_unknown : LivelinessPolicy

-- The kinds of DDS.
pub data HistoryKind : Type 0 where
  dds_keep_last dds_keep_all dds_history_other : HistoryKind

pub data ReliabilityKind : Type 0 where
  dds_best_effort dds_reliable dds_reliability_other : ReliabilityKind

pub data DurabilityKind : Type 0 where
  dds_volatile dds_transient_local dds_durability_other : DurabilityKind

pub data LivelinessKind : Type 0 where
  dds_automatic dds_manual_by_topic dds_liveliness_other : LivelinessKind

-- `rmw_time_t`, two `uint64_t`.
pub record RmwTime : Type 0 where
  pub sec : ℕ
  pub nsec : ℕ

-- `dds_Duration_t`, an `int32_t` and a `uint32_t`.
pub record Duration : Type 0 where
  pub sec : ℤ
  pub nanosec : ℕ

-- What the headers of rmw, rmw_dds_common and DDS declare: RMW_DURATION_INFINITE, `rmw_time_equal`,
-- RMW_DURATION_UNSPECIFIED, the infinite duration of DDS and `clamp_rmw_time_to_dds_time`.
pub record TimeLib : Type 0 where
  pub infinite : RmwTime
  pub unspecified : RmwTime
  pub time_equal : RmwTime → RmwTime → Bool
  pub dds_infinite_sec : ℕ
  pub dds_infinite_nsec : ℕ
  pub clamp : RmwTime → RmwTime

-- `static_cast<int32_t>` of an unsigned number.
unfoldable pub to_int32 : ℕ → ℤ
to_int32 n = let m = n % 2 ^ 32 in if ltb m (2 ^ 31) then pos m else negsuc (2 ^ 32 - m - 1)

-- `static_cast<uint64_t>` of an `int32_t`.
unfoldable pub to_uint64 : ℤ → ℕ
to_uint64 (pos n) = n
to_uint64 (negsuc n) = 2 ^ 64 - n - 1

unfoldable pub rmw_time_to_dds : TimeLib → RmwTime → Duration
unfolding to_int32
rmw_time_to_dds t time =
    let clamped_time = t.clamp time in
    if t.time_equal time t.infinite
    then record { sec = pos t.dds_infinite_sec; nanosec = t.dds_infinite_nsec }
    else record { sec = to_int32 clamped_time.sec; nanosec = clamped_time.nsec % 2 ^ 32 }

-- `duration.sec == dds_DURATION_INFINITE_SEC`
unfoldable pub is_pos : ℤ → ℕ → Bool
is_pos (pos n) m = n == m
is_pos (negsuc n) m = false

unfoldable pub dds_duration_to_rmw : TimeLib → Duration → RmwTime
unfolding is_pos to_uint64
dds_duration_to_rmw t duration =
    if is_pos duration.sec t.dds_infinite_sec && (duration.nanosec == t.dds_infinite_nsec)
    then t.infinite
    else record { sec = to_uint64 duration.sec; nsec = duration.nanosec }

unfoldable pub convert_history : HistoryKind → HistoryPolicy
convert_history dds_keep_last = keep_last
convert_history dds_keep_all = keep_all
convert_history dds_history_other = history_unknown

unfoldable pub convert_reliability : ReliabilityKind → ReliabilityPolicy
convert_reliability dds_best_effort = best_effort
convert_reliability dds_reliable = reliable
convert_reliability dds_reliability_other = reliability_unknown

unfoldable pub convert_durability : DurabilityKind → DurabilityPolicy
convert_durability dds_volatile = volatile
convert_durability dds_transient_local = transient_local
convert_durability dds_durability_other = durability_unknown

unfoldable pub convert_liveliness : LivelinessKind → LivelinessPolicy
convert_liveliness dds_automatic = automatic
convert_liveliness dds_manual_by_topic = manual_by_topic
convert_liveliness dds_liveliness_other = liveliness_unknown

-- The switches of `set_entity_qos_from_profile_generic`: the kind that is set, the old one for the
-- system default, and `none` for an unknown policy.
unfoldable pub set_history : HistoryPolicy → HistoryKind → Option HistoryKind
set_history keep_last old = some dds_keep_last
set_history keep_all old = some dds_keep_all
set_history history_system_default old = some old
set_history history_unknown old = none

unfoldable pub set_reliability : ReliabilityPolicy → ReliabilityKind → Option ReliabilityKind
set_reliability best_effort old = some dds_best_effort
set_reliability reliable old = some dds_reliable
set_reliability reliability_system_default old = some old
set_reliability reliability_unknown old = none

unfoldable pub set_durability : DurabilityPolicy → DurabilityKind → Option DurabilityKind
set_durability transient_local old = some dds_transient_local
set_durability volatile old = some dds_volatile
set_durability durability_system_default old = some old
set_durability durability_unknown old = none

unfoldable pub set_liveliness : LivelinessPolicy → LivelinessKind → Option LivelinessKind
set_liveliness automatic old = some dds_automatic
set_liveliness manual_by_topic old = some dds_manual_by_topic
set_liveliness liveliness_system_default old = some old
set_liveliness liveliness_unknown old = none
