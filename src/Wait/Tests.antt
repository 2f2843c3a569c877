-- ===== src/Wait/Tests.antt =====
-- The theorems on wait sets at concrete inputs.
use rmw_gurumdds.Base.{
  ℕ, ◌≡◌, refl, ◌↔◌, true, false, not, ◌&&◌, ◌==◌, if◌then◌else◌, ltb, List, [], ◌∷◌, none, some,
  arith,
}
use rmw_gurumdds.Event.Converter.{
  message_lost, ret_ok, ret_error, DdsRet, dds_ok, dds_error, is_event_supported, set_bits,
  mask_map, get_status_kind_from_rmw, is_kind,
}
use rmw_gurumdds.Wait.{EventInfo, Pointers, DdsWaitSet, WaitSetInfo, Arrays}
use rmw_gurumdds.Wait.Attach.{
  check_reattached, entries, contains, status_conditions_of, reattach, attach,
  gather_event_conditions, gather_loop, gathered, gather_event, gather_guard, insert, add_mask,
  insert_conditions,
}
use rmw_gurumdds.Wait.Poll.{wait_w_polling}
use rmw_gurumdds.Wait.Run.{
  Environment, Waited, clean_up, at_exit, after_wait, wait_default, wait_checked, wait,
}
use rmw_gurumdds.Wait.Reattach.{check_reattached_lem, IsCached, attach-attach}
use rmw_gurumdds.Wait.Exact.{IsWaitSet, attached, required, reattach_lem}
use rmw_gurumdds.Wait.Marks.{IsComplete, marked_arrays, chosen}
use rmw_gurumdds.Wait.Polling.{PollResult, wait_w_polling_lem}
use rmw_gurumdds.Wait.Answers.{ready, wait-active, wait-error, IsDropped}

-- A wait set as a list of conditions.
abbrev detached : ℕ → List ℕ → List ℕ
detached c [] = []
detached c (d ∷ ds) = if c == d then detached c ds else d ∷ detached c ds

abbrev listed : DdsWaitSet (List ℕ)
listed = record {
  attach_condition = λ c s. c ∷ s;
  detach_condition = detached;
  get_conditions = λ s. some s;
}

contains-detached :
    (c : ℕ) (s : List ℕ) (x : ℕ) → contains (detached c s) x ≡ (not (c == x) && contains s x)
contains-detached c [] x = ground arith
contains-detached c (d ∷ ds) x = ground (arith, contains-detached c ds x)

listed-IsWaitSet : IsWaitSet listed
listed-IsWaitSet = record {
  reported = λ s. refl;
  after_attach = λ c s x. refl;
  after_detach = contains-detached;
}

-- The read condition of the subscriber at 10 is 110, and so on; at 50 there is an event for lost
-- messages with a callback.
abbrev lost_info : EventInfo
lost_info = record {
  has_callback = λ e. true;
  get_guard_condition = λ e. 250;
  get_status_condition = 350;
  is_status_changed = λ e. true;
}

abbrev some_pointers : Pointers
some_pointers = record {
  subscriber_condition = λ x. 110;
  service_condition = λ x. 130;
  client_condition = λ x. 140;
  event_at = λ x. record { event_type = message_lost; data_ = some lost_info };
}

abbrev some_arrays : Arrays
some_arrays = record {
  subscriptions = some (10 ∷ []);
  guard_conditions = some (20 ∷ 21 ∷ []);
  services = some [];
  clients = none;
  events = some (50 ∷ []);
}

abbrev fresh : WaitSetInfo (List ℕ)
fresh = record {
  wait_set = 7 ∷ [];
  active_conditions = [];
  cached_subscriptions = [];
  cached_guard_conditions = [];
  cached_service_conditions = [];
  cached_client_conditions = [];
  cached_event_conditions = [];
  cached_status_conditions = [];
}

check_reattached_lem_example :
    (check_reattached (10 ∷ 11 ∷ []) (some (10 ∷ 12 ∷ [])) ≡ false)
    ↔ (◌≡◌ {A = List ℕ} (10 ∷ 11 ∷ []) (10 ∷ 12 ∷ []))
check_reattached_lem_example = check_reattached_lem (10 ∷ 11 ∷ []) (some (10 ∷ 12 ∷ []))

attach-attach_example :
    IsCached listed some_pointers some_arrays (attach listed some_pointers some_arrays fresh)
    × (attach listed some_pointers some_arrays (attach listed some_pointers some_arrays fresh)
        ≡ attach listed some_pointers some_arrays fresh)
attach-attach_example = attach-attach listed some_pointers some_arrays fresh (refl, tt)

gathered_here : status_conditions_of some_pointers some_arrays.events ≡ 250 ∷ 350 ∷ []
unfolding gather_event_conditions gather_loop gathered gather_event gather_guard insert add_mask
    insert_conditions is_event_supported get_status_kind_from_rmw mask_map set_bits is_kind
gathered_here = refl

reattach_lem_example :
    contains (attached listed (reattach listed some_pointers some_arrays fresh).wait_set) 7
    ≡ contains (required some_pointers some_arrays) 7
reattach_lem_example = reattach_lem listed listed-IsWaitSet some_pointers some_arrays fresh 7

-- DDS reports the condition of the subscriber and the second guard condition.
abbrev some_environment : DdsRet → Environment (List ℕ)
some_environment answer = record {
  dds = listed;
  wait_on = λ s t. (answer, 110 ∷ 21 ∷ []);
  set_trigger_value = λ x. dds_ok;
  infinite_sec = 2147483647;
  polling = false;
  first = λ c. false;
  in_time = λ t k. ltb k 3;
  triggered = λ k c. false;
  fuel = 4;
}

some_arrays-IsComplete : IsComplete some_pointers some_arrays
some_arrays-IsComplete = record {
  subscriptions = ((refl, refl), tt);
  guard_conditions = (refl, (refl, tt));
  services = tt;
  clients = tt;
  events = (record { info = lost_info; at_ = refl }, tt);
}

wait-active_example :
    wait (some_environment dds_ok) some_pointers (ready fresh) some_arrays none
    ≡ some (record {
      wait_set = ready (record (attach listed some_pointers some_arrays fresh) {
        active_conditions = 110 ∷ 21 ∷ [];
      });
      arrays = marked_arrays some_pointers (110 ∷ 21 ∷ []) some_arrays;
      ret = ret_ok;
      resets = chosen (contains (110 ∷ 21 ∷ [])) (entries some_arrays.guard_conditions);
    })
wait-active_example =
    wait-active (some_environment dds_ok) some_pointers some_arrays none fresh refl (110 ∷ 21 ∷ [])
      refl (λ x. refl) some_arrays-IsComplete

marked_here : marked_arrays some_pointers (110 ∷ 21 ∷ []) some_arrays ≡ record {
  subscriptions = some (10 ∷ []);
  guard_conditions = some (0 ∷ 21 ∷ []);
  services = some [];
  clients = none;
  events = some (50 ∷ []);
}
marked_here = refl

wait_w_polling_lem_example :
    PollResult (wait_w_polling (λ c. false) (λ k. ltb k 3) (λ k c. false) (7 ∷ []) 4) (7 ∷ [])
wait_w_polling_lem_example =
    wait_w_polling_lem (λ k. ltb k 3) (λ k c. false) (7 ∷ []) 3 refl (λ c. false) 4 (omega arith)

abbrev refused : Environment (List ℕ)
refused = some_environment dds_error

abbrev after_error : Waited (List ℕ)
after_error = record {
  wait_set = ready (
      clean_up refused some_pointers (record (attach listed some_pointers some_arrays fresh) {
        active_conditions = 110 ∷ 21 ∷ [];
      }));
  arrays = some_arrays;
  ret = ret_error;
  resets = [];
}

error_run : wait refused some_pointers (ready fresh) some_arrays none ≡ some after_error
unfolding wait wait_checked wait_default after_wait at_exit
error_run = refl

wait-error_example : IsDropped listed after_error
wait-error_example =
    wait-error refused some_pointers listed-IsWaitSet refl some_arrays none fresh after_error
      error_run refl
