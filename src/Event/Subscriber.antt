-- ===== src/Event/Subscriber.antt =====
-- `SubscriberInfo` of rmw_gurumdds_cpp/src/event_info_common.cpp. Each method holds `mutex_event`,
-- except `update_inconsistent_topic`; a method is one step.
pub mod Status
pub mod Losses
use rmw_gurumdds.Base.{ℕ, Bool, true, false, Option, none, some}
use rmw_gurumdds.Base.Int.{ℤ, pos, ◌+ℤ◌}
use rmw_gurumdds.Event.Converter.{
  EventType, liveliness_changed, requested_deadline_missed, requested_qos_incompatible,
  message_lost, subscription_incompatible_type, subscription_matched, invalid, StatusMask, RmwRet,
  ret_ok, ret_unsupported,
}
use rmw_gurumdds.Event.Notifier.{
  add_count, notify, clear_count, clear_policy, clear_matched, clear_alive, Notifier, CountStatus,
  PolicyStatus, MatchedStatus, AliveStatus, run_callback, set_trigger, install, uninstall,
}

pub record SubscriberInfo : Type 0 where
  pub notifier : Notifier
  pub inconsistent_topic_changed : Bool
  pub inconsistent_topic : CountStatus
  pub alive_changed : Bool
  pub alive_status : AliveStatus
  pub deadline_changed : Bool
  pub deadline : CountStatus
  pub qos_changed : Bool
  pub qos : PolicyStatus
  pub sample_lost_changed : Bool
  pub sample_lost : CountStatus
  pub matched_changed : Bool
  pub matched_status : MatchedStatus

-- What the getters of the data reader and its topic would return, and the reader's status changes.
pub record ReaderStatus : Type 0 where
  pub inconsistent_topic : CountStatus
  pub alive_status : AliveStatus
  pub deadline : CountStatus
  pub qos : PolicyStatus
  pub sample_lost : CountStatus
  pub matched_status : MatchedStatus
  pub changes : StatusMask

-- The callback is given the change of this update only.
unfoldable pub update_inconsistent_topic : ℤ → ℤ → SubscriberInfo → SubscriberInfo
unfolding set_trigger run_callback
update_inconsistent_topic total_count total_count_change p = record p {
  inconsistent_topic_changed = true;
  inconsistent_topic = add_count total_count total_count_change p.inconsistent_topic;
  notifier = notify subscription_incompatible_type total_count_change p.notifier;
}

-- The callback is that of `liveliness_changed`, the guard condition that of the missed deadlines.
unfoldable pub on_requested_deadline_missed : CountStatus → SubscriberInfo → SubscriberInfo
unfolding set_trigger run_callback
on_requested_deadline_missed status p =
    let st = add_count status.total_count status.total_count_change p.deadline in
    record p {
      deadline_changed = true;
      deadline = st;
      notifier =
          set_trigger requested_deadline_missed true
            (run_callback liveliness_changed st.total_count_change p.notifier);
    }

unfoldable pub on_requested_incompatible_qos : PolicyStatus → SubscriberInfo → SubscriberInfo
unfolding set_trigger run_callback
on_requested_incompatible_qos status p =
    let change = p.qos.total_count_change +ℤ status.total_count_change in
    record p {
      qos_changed = true;
      qos = record {
        total_count = status.total_count;
        total_count_change = change;
        last_policy_id = status.last_policy_id;
      };
      notifier = notify requested_qos_incompatible change p.notifier;
    }

-- `on_data_available`, with the callback and user data of `event_callback_data` and the number that
-- `count_unread` gets from the reader: the call that is made.
unfoldable pub on_data_available : Option ℕ → ℕ → ℕ → Option (ℕ × ℕ × ℕ)
on_data_available none user_data unread = none
on_data_available (some callback) user_data unread = some (callback, user_data, unread)

-- The callback is given the change of the alive count only.
unfoldable pub on_liveliness_changed : AliveStatus → SubscriberInfo → SubscriberInfo
unfolding set_trigger run_callback
on_liveliness_changed status p =
    let change = p.alive_status.alive_count_change +ℤ status.alive_count_change in
    record p {
      alive_changed = true;
      alive_status = record {
        alive_count = status.alive_count;
        not_alive_count = status.not_alive_count;
        alive_count_change = change;
        not_alive_count_change =
            p.alive_status.not_alive_count_change +ℤ status.not_alive_count_change;
      };
      notifier = notify liveliness_changed change p.notifier;
    }

unfoldable pub on_subscription_matched : MatchedStatus → SubscriberInfo → SubscriberInfo
unfolding set_trigger run_callback
on_subscription_matched status p =
    let change = p.matched_status.total_count_change +ℤ status.total_count_change in
    record p {
      matched_changed = true;
      matched_status = record {
        total_count = status.total_count;
        total_count_change = change;
        current_count = status.current_count;
        current_count_change = p.matched_status.current_count_change +ℤ status.current_count_change;
      };
      notifier = notify subscription_matched change p.notifier;
    }

unfoldable pub on_sample_lost : CountStatus → SubscriberInfo → SubscriberInfo
unfolding set_trigger run_callback
on_sample_lost status p =
    let st = add_count status.total_count status.total_count_change p.sample_lost in
    record p {
      sample_lost_changed = true;
      sample_lost = st;
      notifier = notify message_lost st.total_count_change p.notifier;
    }

-- The switch of `set_on_new_event_callback`: the status is read anew from DDS, its changes are taken
-- out and the flag is cleared. `none` is the default case.
unfoldable pub collect : ReaderStatus → EventType → SubscriberInfo → Option (SubscriberInfo × ℤ)
collect w liveliness_changed p = some (
  record p { alive_status = clear_alive w.alive_status; alive_changed = false },
  w.alive_status.alive_count_change +ℤ w.alive_status.not_alive_count_change,
)
collect w requested_deadline_missed p = some (
  record p { deadline = clear_count w.deadline; deadline_changed = false },
  w.deadline.total_count_change,
)
collect w requested_qos_incompatible p =
    some (record p { qos = clear_policy w.qos; qos_changed = false }, w.qos.total_count_change)
collect w message_lost p = some (
  record p { sample_lost = clear_count w.sample_lost; sample_lost_changed = false },
  w.sample_lost.total_count_change,
)
collect w subscription_incompatible_type p = some (
  record p {
    inconsistent_topic = clear_count w.inconsistent_topic;
    inconsistent_topic_changed = false;
  },
  w.inconsistent_topic.total_count_change,
)
collect w subscription_matched p = some (
  record p { matched_status = clear_matched w.matched_status; matched_changed = false },
  w.matched_status.total_count_change,
)
collect w _ p = none

-- `none` is a write past the end of `on_new_event_cb`, at RMW_EVENT_INVALID.
unfoldable pub set_on_new_event_callback :
    ReaderStatus → EventType → ℕ → Option ℕ → SubscriberInfo → Option (SubscriberInfo × RmwRet)
unfolding collect install uninstall
set_on_new_event_callback w e user_data (some cb) p = elim (collect w e p) [
  | none ↦ some (p, ret_unsupported)
  | some (q, changes) ↦
      some (record q { notifier = install e user_data cb changes q.notifier }, ret_ok)
]
set_on_new_event_callback w invalid user_data none p = none
set_on_new_event_callback w e user_data none p =
    some (record p { notifier = uninstall e p.notifier }, ret_ok)
