-- ===== src/Wait/Answers.antt =====
-- What a call of `wait` returns and leaves (rmw_gurumdds_cpp/src/wait.cpp).
use rmw_gurumdds.Base.{ℕ, ◌≡◌, ◌≢◌, refl, sym, ap, ◌∙◌, true, false, List, [], Option, some}
use rmw_gurumdds.Event.Converter.{
  RmwRet, ret_ok, ret_error, ret_timeout, ret_unsupported, ret_invalid_argument,
  ret_incorrect_rmw_implementation, ret_bad_alloc, DdsRet, dds_ok, dds_error, dds_timeout,
  dds_other,
}
use rmw_gurumdds.Qos.{RmwTime}
use rmw_gurumdds.Wait.{Pointers, DdsWaitSet, WaitSetInfo, Arrays}
use mathlib.Core.Path.{subst}
use mathlib.Core.Option.{some-injective}
use rmw_gurumdds.Wait.Exact.{IsWaitSet, attached, none_left}
use rmw_gurumdds.Wait.Attach.{entries, contains, detach_attached, attach}
use rmw_gurumdds.Wait.Active.{mark_all}
use rmw_gurumdds.Wait.Run.{
  WaitSetData, RmwWaitSet, Environment, Waited, timeout_of, clean_up, at_exit, finish, fails,
  after_wait, wait_default, wait_checked, wait,
}
use rmw_gurumdds.Wait.Marks.{IsComplete, marked_arrays, chosen, mark_all_lem}

-- A wait set that has all that `wait` checks.
abbrev pub ready : {S : Type 0} → WaitSetInfo S → Option (RmwWaitSet S)
ready w = some (record {
  identifier_matches = true;
  data_ = some (record {
    has_wait_set = true;
    has_active_conditions = true;
    has_attached_conditions = true;
    info = w;
  });
})

-- The caches that make the next call attach anew.
abbrev pub without_caches : {S : Type 0} → S → List ℕ → WaitSetInfo S
without_caches s active = record {
  wait_set = s;
  active_conditions = active;
  cached_subscriptions = [];
  cached_guard_conditions = [];
  cached_service_conditions = [];
  cached_client_conditions = [];
  cached_event_conditions = [];
  cached_status_conditions = [];
}

-- What an error leaves: empty caches, and nothing attached.
pub record IsDropped {S : Type 0} (dds : DdsWaitSet S) (r : Waited S) : Type 0 where
  pub state : S
  pub active : List ℕ
  pub left_ : r.wait_set ≡ ready (without_caches state active)
  pub nothing_attached : (x : ℕ) → contains (attached dds state) x ≡ false

module _ {S : Type 0} (env : Environment S) (ps : Pointers) (laws : IsWaitSet env.dds) where
  abbrev ready_data : WaitSetInfo S → WaitSetData S
  ready_data w = record {
    has_wait_set = true;
    has_active_conditions = true;
    has_attached_conditions = true;
    info = w;
  }

  clean_up_lem :
      (w : WaitSetInfo S)
      → clean_up env ps w ≡ without_caches (detach_attached env.dds w.wait_set) w.active_conditions
  unfolding clean_up detach_attached
  clean_up_lem w = rw (clean_up, detach_attached, laws.reported w.wait_set) refl

  fails-IsDropped :
      (w : WaitSetInfo S) (a : Arrays) (r : RmwRet) (resets : List ℕ)
      → IsDropped env.dds (fails env ps (ready_data w) a r resets)
  unfolding at_exit
  fails-IsDropped w a r resets = record {
    state = detach_attached env.dds w.wait_set;
    active = w.active_conditions;
    left_ = ap ready (clean_up_lem w);
    nothing_attached = none_left env.dds laws w.wait_set;
  }

  finish-IsDropped :
      (w : WaitSetInfo S) (a : Arrays) (r rret : RmwRet) (resets : List ℕ)
      → rret ≢ ret_error
      → (finish env ps (ready_data w) rret (record { arrays = a; ret = r; resets = resets })).ret
        ≡ ret_error
      → IsDropped env.dds
          (finish env ps (ready_data w) rret (record { arrays = a; ret = r; resets = resets }))
  unfolding finish
  finish-IsDropped w a ret_ok rret resets no_error e = absurd (no_error e)
  finish-IsDropped w a ret_error rret resets no_error e = fails-IsDropped w a ret_error resets
  finish-IsDropped w a ret_timeout rret resets no_error e = fails-IsDropped w a ret_timeout resets
  finish-IsDropped w a ret_unsupported rret resets no_error e =
      fails-IsDropped w a ret_unsupported resets
  finish-IsDropped w a ret_invalid_argument rret resets no_error e =
      fails-IsDropped w a ret_invalid_argument resets
  finish-IsDropped w a ret_incorrect_rmw_implementation rret resets no_error e =
      fails-IsDropped w a ret_incorrect_rmw_implementation resets
  finish-IsDropped w a ret_bad_alloc rret resets no_error e =
      fails-IsDropped w a ret_bad_alloc resets

  after_wait-IsDropped :
      (w : WaitSetInfo S) (a : Arrays) (status : DdsRet) (active : List ℕ)
      → (after_wait env ps (ready_data w) a status active).ret ≡ ret_error
      → IsDropped env.dds (after_wait env ps (ready_data w) a status active)
  unfolding after_wait
  after_wait-IsDropped w a dds_ok active e =
      let o = mark_all ps env.set_trigger_value active a in
      finish-IsDropped (record w { active_conditions = active }) o.arrays o.ret ret_ok o.resets
        (λ h. cc) e
  after_wait-IsDropped w a dds_timeout active e = absurd (cc)
  after_wait-IsDropped w a dds_error active e =
      fails-IsDropped (record w { active_conditions = active }) a ret_error []
  after_wait-IsDropped w a dds_other active e =
      fails-IsDropped (record w { active_conditions = active }) a ret_error []

  -- If DDS keeps its promises for wait sets, then a call without polling on a wait set that has all
  -- that is checked, and that returns an error, leaves the caches empty and nothing attached.
  pub wait-error :
      env.polling ≡ false
      → (a : Arrays) (t : Option RmwTime) (w : WaitSetInfo S) (r : Waited S)
      → wait env ps (ready w) a t ≡ some r
      → r.ret ≡ ret_error
      → IsDropped env.dds r
  unfolding wait wait_checked wait_default
  wait-error waits a t w r e h =
      let d = attach env.dds ps a w in
      let (status, active) = env.wait_on d.wait_set (timeout_of env.infinite_sec t) in
      let r' = after_wait env ps (ready_data d) a status active in
      let runs : wait env ps (ready w) a t ≡ some r' = rw waits refl in
      let same : r' ≡ r = some-injective _ _ (sym runs ∙ e) in
      subst (λ x. IsDropped env.dds x) same
        (after_wait-IsDropped d a status active (ap (λ (x : Waited S). x.ret) same ∙ h))

module _ {S : Type 0} (env : Environment S) (ps : Pointers) (a : Arrays) (t : Option RmwTime)
    (w : WaitSetInfo S) (waits : env.polling ≡ false) where
  abbrev pub asked : DdsRet × List ℕ
  asked = env.wait_on (attach env.dds ps a w).wait_set (timeout_of env.infinite_sec t)

  -- A call with complete arrays, where DDS waits and reports active conditions and resets guard
  -- conditions, returns ok; it leaves in each array the entries whose condition is active, or whose
  -- event has changed, and null in the place of the others; it resets the guard conditions that
  -- are active, and keeps what is attached for the next call.
  pub wait-active :
      (active : List ℕ)
      → asked ≡ (dds_ok, active)
      → ((x : ℕ) → env.set_trigger_value x ≡ dds_ok)
      → IsComplete ps a
      → wait env ps (ready w) a t
        ≡ some (record {
          wait_set = ready (record (attach env.dds ps a w) { active_conditions = active });
          arrays = marked_arrays ps active a;
          ret = ret_ok;
          resets = chosen (contains active) (entries a.guard_conditions);
        })
  unfolding wait wait_checked wait_default after_wait finish
  wait-active active answer resets complete =
      rw (waits, answer) (rw (mark_all_lem ps env.set_trigger_value active resets a complete) refl)
