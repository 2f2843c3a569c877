-- ===== src/Wait/Run.antt =====
-- `wait` (rmw_gurumdds_cpp/src/wait.cpp).
use rmw_gurumdds.Base.{
  ℕ, ◌%◌, ◌^◌, Bool, true, not, if◌then◌else◌, List, [], map, Option, none, some,
}
use rmw_gurumdds.Base.Int.{pos}
use rmw_gurumdds.Event.Converter.{
  RmwRet, ret_ok, ret_error, ret_timeout, ret_invalid_argument, ret_incorrect_rmw_implementation,
  DdsRet, dds_ok, dds_timeout,
}
use rmw_gurumdds.Qos.{RmwTime, Duration, to_int32}
use rmw_gurumdds.Wait.{Pointers, DdsWaitSet, WaitSetInfo, Arrays}
use rmw_gurumdds.Wait.Attach.{attach, detach_all, entries}
use rmw_gurumdds.Wait.Poll.{wait_w_polling}
use rmw_gurumdds.Wait.Active.{Outcome, mark_all}

-- `WaitSetInfo` behind the three pointers that are checked, and `rmw_wait_set_t`.
pub record WaitSetData (S : Type 0) : Type 0 where
  pub has_wait_set : Bool
  pub has_active_conditions : Bool
  pub has_attached_conditions : Bool
  pub info : WaitSetInfo S

pub record RmwWaitSet (S : Type 0) : Type 0 where
  pub identifier_matches : Bool
  pub data_ : Option (WaitSetData S)

-- What a call meets outside: the operations of DDS, the infinite duration of DDS in seconds, the
-- environment variable for polling, and what polling observes, with the fuel for its loop.
pub record Environment (S : Type 0) : Type 0 where
  pub dds : DdsWaitSet S
  pub wait_on : S → Duration → DdsRet × List ℕ
  pub set_trigger_value : ℕ → DdsRet
  pub infinite_sec : ℕ
  pub polling : Bool
  pub first : ℕ → Bool
  pub in_time : Option RmwTime → ℕ → Bool
  pub triggered : ℕ → ℕ → Bool
  pub fuel : ℕ

-- The wait set and the arrays as they are left, the code, and the guard conditions that were reset.
pub record Waited (S : Type 0) : Type 0 where
  pub wait_set : Option (RmwWaitSet S)
  pub arrays : Arrays
  pub ret : RmwRet
  pub resets : List ℕ

-- `timeout`
abbrev pub timeout_of : ℕ → Option RmwTime → Duration
timeout_of infinite_sec none = record { sec = pos infinite_sec; nanosec = 0 }
timeout_of infinite_sec (some t) = record { sec = to_int32 t.sec; nanosec = t.nsec % 2 ^ 32 }

-- `memset(..., 0, ...)`
abbrev pub cleared : Option (List ℕ) → Option (List ℕ)
cleared none = none
cleared (some xs) = some (map (λ _. 0) xs)

abbrev pub clear_arrays : Arrays → Arrays
clear_arrays a = record {
  subscriptions = cleared a.subscriptions;
  guard_conditions = cleared a.guard_conditions;
  services = cleared a.services;
  clients = cleared a.clients;
  events = cleared a.events;
}

module _ {S : Type 0} (env : Environment S) (ps : Pointers) where
  -- The scope exit from its call of `dds_WaitSet_get_conditions` on; an error of that call leaves the
  -- caches.
  unfoldable pub clean_up : WaitSetInfo S → WaitSetInfo S
  unfolding detach_all
  clean_up w = elim (env.dds.get_conditions w.wait_set) [
    | none ↦ w
    | some cs ↦ record {
      wait_set = detach_all env.dds cs w.wait_set;
      active_conditions = w.active_conditions;
      cached_subscriptions = [];
      cached_guard_conditions = [];
      cached_service_conditions = [];
      cached_client_conditions = [];
      cached_event_conditions = [];
      cached_status_conditions = [];
    }
  ]

  -- The scope exit on a wait set that has passed the checks of `wait` up to the two sequences.
  unfoldable pub at_exit : WaitSetData S → WaitSetData S
  unfolding clean_up
  at_exit d = if not d.has_attached_conditions then d else record d { info = clean_up d.info }

  abbrev pub with_data : WaitSetData S → Option (RmwWaitSet S)
  with_data d = some (record { identifier_matches = true; data_ = some d })

  abbrev pub fails : WaitSetData S → Arrays → RmwRet → List ℕ → Waited S
  fails d a r rs = record { wait_set = with_data (at_exit d); arrays = a; ret = r; resets = rs }

  -- The end of the function: `atexit.cancel()` where no loop has returned an error.
  unfoldable pub finish : WaitSetData S → RmwRet → Outcome → Waited S
  unfolding at_exit
  finish d rret o = elim o.ret [
    | ret_ok ↦ record { wait_set = with_data d; arrays = o.arrays; ret = rret; resets = o.resets }
    | _ ↦ fails d o.arrays o.ret o.resets
  ]

  abbrev pub with_active : WaitSetData S → List ℕ → WaitSetData S
  with_active d active = record d { info = record (d.info) { active_conditions = active } }

  -- What follows `dds_WaitSet_wait`.
  unfoldable pub after_wait : WaitSetData S → Arrays → DdsRet → List ℕ → Waited S
  unfolding finish mark_all at_exit
  after_wait d a dds_ok active =
      finish (with_active d active) ret_ok (mark_all ps env.set_trigger_value active a)
  after_wait d a dds_timeout active = record {
    wait_set = with_data (with_active d active);
    arrays = clear_arrays a;
    ret = ret_timeout;
    resets = [];
  }
  after_wait d a _ active = fails (with_active d active) a ret_error []

  -- What follows `wait_w_polling`, if that ends.
  unfoldable pub after_polling : WaitSetData S → Arrays → RmwRet → List ℕ → Waited S
  unfolding finish mark_all
  after_polling d a rret active =
      finish (with_active d active) rret (mark_all ps env.set_trigger_value active a)

  -- The two ways to wait; none where the fuel for polling does not suffice.
  unfoldable pub wait_default : WaitSetData S → Arrays → Option RmwTime → Waited S
  unfolding after_wait
  wait_default d a wait_timeout =
      let (status, active) =
        env.wait_on d.info.wait_set (timeout_of env.infinite_sec wait_timeout) in
      after_wait d a status active

  unfoldable pub wait_polling : WaitSetData S → Arrays → Option RmwTime → Option (Waited S)
  unfolding after_polling wait_w_polling
  wait_polling d a wait_timeout =
      let conds = entries (env.dds.get_conditions d.info.wait_set) in
      elim (wait_w_polling env.first (env.in_time wait_timeout) env.triggered conds env.fuel) [
        | none ↦ none
        | some (rret, active) ↦ some (after_polling d a rret active)
      ]

  abbrev pub with_attached : WaitSetData S → Arrays → WaitSetData S
  with_attached d a = record d { info = attach env.dds ps a d.info }

  -- The function behind its checks.
  unfoldable pub wait_checked : WaitSetData S → Arrays → Option RmwTime → Option (Waited S)
  unfolding attach wait_default wait_polling
  wait_checked d a wait_timeout =
      if not env.polling
      then some (wait_default (with_attached d a) a wait_timeout)
      else wait_polling (with_attached d a) a wait_timeout

  abbrev returns : Option (RmwWaitSet S) → Arrays → RmwRet → Option (Waited S)
  returns w a r = some (record { wait_set = w; arrays = a; ret = r; resets = [] })

  unfoldable pub wait : Option (RmwWaitSet S) → Arrays → Option RmwTime → Option (Waited S)
  unfolding wait_checked
  wait none a wait_timeout = returns none a ret_invalid_argument
  wait (some w) a wait_timeout =
      if not w.identifier_matches
      then returns (some w) a ret_incorrect_rmw_implementation
      else elim w.data_ [
        | none ↦ returns (some w) a ret_error
        | some d ↦
            if not d.has_wait_set
            then returns (some w) a ret_error
            else if not d.has_active_conditions
            then some (fails d a ret_error [])
            else wait_checked d a wait_timeout
      ]
