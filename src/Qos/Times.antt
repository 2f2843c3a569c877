-- ===== src/Qos/Times.antt =====
-- Durations there and back: rmw_gurumdds_cpp/src/qos.cpp.
use rmw_gurumdds.Base.{ℕ, ◌^◌, ◌<◌, ◌≡◌, ==_self, refl, arith, true, false, ◌==◌}
use rmw_gurumdds.Base.Int.{pos}
use native.Mathlib.Nat.{mod-eq_of_lt}
use rmw_gurumdds.Qos.{
  RmwTime, TimeLib, to_int32, to_uint64, is_pos, rmw_time_to_dds, dds_duration_to_rmw,
}

to_int32-small : (n : ℕ) → n < 2 ^ 31 → to_int32 n ≡ pos n
unfolding to_int32
to_int32-small n h = ground arith

-- A time that is not infinite, that the clamping leaves alone, that has fewer than 2 ^ 31 seconds and
-- 2 ^ 32 nanoseconds, and that does not have the seconds of the infinite duration of DDS, comes back
-- from DDS as it was. The infinite time comes back as infinite, where it equals itself.
pub dds_duration_to_rmw-rmw_time_to_dds :
    (t : TimeLib) (time : RmwTime)
    → t.time_equal t.infinite t.infinite ≡ true
    → t.time_equal time t.infinite ≡ false
    → t.clamp time ≡ time
    → time.sec < 2 ^ 31
    → time.nsec < 2 ^ 32
    → (time.sec == t.dds_infinite_sec) ≡ false
    → (dds_duration_to_rmw t (rmw_time_to_dds t time) ≡ time)
      × (dds_duration_to_rmw t (rmw_time_to_dds t t.infinite) ≡ t.infinite)
unfolding dds_duration_to_rmw rmw_time_to_dds is_pos to_uint64
dds_duration_to_rmw-rmw_time_to_dds t time same finite clamped s n apart = (
  rw (finite, clamped, to_int32-small time.sec s, mod-eq_of_lt n, apart) refl,
  rw (same, ==_self t.dds_infinite_sec, ==_self t.dds_infinite_nsec) refl,
)
