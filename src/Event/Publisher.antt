-- ===== src/Event/Publisher.antt =====
-- `PublisherInfo` of rmw_gurumdds_cpp/src/event_info_common.cpp. Each method holds `mutex_event`, so
-- a method is one step.
pub mod Status
pub mod Updates
pub mod Pending
pub mod Deadline
pub mod Callbacks
pub mod Reach
pub mod Asked
use rmw_gurumdds.Base.{ℕ, Bool, true, false, ◌||◌, if◌then◌else◌, Option, none, some}
use rmw_gurumdds.Base.Int.{ℤ, pos, ◌+ℤ◌}
use rmw_gurumdds.Event.Converter.{
  EventType, liveliness_lost, offered_deadline_missed, offered_qos_incompatible,
  publisher_incompatible_type, publication_matched, invalid, StatusMask, get_status_kind_from_rmw,
  has_bits, RmwRet, ret_ok, ret_unsupported,
}
use rmw_gurumdds.Event.Policy.{convert_qos_policy}
use rmw_gurumdds.Event.Notifier.{
  add_count, notify, Notifier, CountStatus, PolicyStatus, MatchedStatus, RmwStatus, counted,
  incompatible, matched, run_callback, set_trigger, install, uninstall, has_callback_unsafe,
}

pub record PublisherInfo : Type 0 where
  pub notifier : Notifier
  pub inconsistent_topic_changed : Bool
  pub inconsistent_topic : CountStatus
  pub deadline_changed : Bool
  pub deadline : CountStatus
  pub qos_changed : Bool
  pub qos : PolicyStatus
  pub liveliness_changed : Bool
  pub liveliness : CountStatus
  pub matched_changed : Bool
  pub matched_status : MatchedStatus

-- What the getters of the data writer and its topic would return, and the writer's status changes.
pub record WriterStatus : Type 0 where
  pub inconsistent_topic : CountStatus
  pub deadline : CountStatus
  pub qos : PolicyStatus
  pub liveliness : CountStatus
  pub matched_status : MatchedStatus
  pub changes : StatusMask

-- The callback is given the change of this update only.
unfoldable pub update_inconsistent_topic : ℤ → ℤ → PublisherInfo → PublisherInfo
unfolding set_trigger run_callback
update_inconsistent_topic total_count total_count_change p = record p {
  inconsistent_topic_changed = true;
  inconsistent_topic = add_count total_count total_count_change p.inconsistent_topic;
  notifier = notify publisher_incompatible_type total_count_change p.notifier;
}

-- The counts go to the status of the liveliness.
unfoldable pub on_offered_deadline_missed : CountStatus → PublisherInfo → PublisherInfo
unfolding set_trigger run_callback
on_offered_deadline_missed status p =
    let st = add_count status.total_count status.total_count_change p.liveliness in
    record p {
      deadline_changed = true;
      liveliness = st;
      notifier = notify offered_deadline_missed st.total_count_change p.notifier;
    }

unfoldable pub on_offered_incompatible_qos : PolicyStatus → PublisherInfo → PublisherInfo
unfolding set_trigger run_callback
on_offered_incompatible_qos status p =
    let change = p.qos.total_count_change +ℤ status.total_count_change in
    record p {
      qos_changed = true;
      qos = record {
        total_count = status.total_count;
        total_count_change = change;
        last_policy_id = status.last_policy_id;
      };
      notifier = notify offered_qos_incompatible change p.notifier;
    }

unfoldable pub on_liveliness_lost : CountStatus → PublisherInfo → PublisherInfo
unfolding set_trigger run_callback
on_liveliness_lost status p =
    let st = add_count status.total_count status.total_count_change p.liveliness in
    record p {
      liveliness_changed = true;
      liveliness = st;
      notifier = notify liveliness_lost st.total_count_change p.notifier;
    }

unfoldable pub on_publication_matched : MatchedStatus → PublisherInfo → PublisherInfo
unfolding set_trigger run_callback
on_publication_matched status p =
    let change = p.matched_status.total_count_change +ℤ status.total_count_change in
    record p {
      matched_changed = true;
      matched_status = record {
        total_count = status.total_count;
        total_count_change = change;
        current_count = status.current_count;
        current_count_change = p.matched_status.current_count_change +ℤ status.current_count_change;
      };
      notifier = notify publication_matched change p.notifier;
    }

-- The switch of `set_on_new_event_callback`: the status is read anew from DDS, its changes are taken
-- out and the flag is cleared. `none` is the default case.
unfoldable pub collect : WriterStatus → EventType → PublisherInfo → Option (PublisherInfo × ℤ)
collect w liveliness_lost p = some (
  record p {
    liveliness = record w.liveliness { total_count_change = pos 0 };
    liveliness_changed = false;
  },
  w.liveliness.total_count_change,
)
collect w offered_deadline_missed p = some (
  record p {
    deadline = record w.deadline { total_count_change = pos 0 };
    deadline_changed = false;
  },
  w.deadline.total_count_change,
)
collect w offered_qos_incompatible p = some (
  record p { qos = record w.qos { total_count_change = pos 0 }; qos_changed = false },
  w.qos.total_count_change,
)
collect w publisher_incompatible_type p = some (
  record p {
    inconsistent_topic = record w.inconsistent_topic { total_count_change = pos 0 };
    inconsistent_topic_changed = false;
  },
  w.inconsistent_topic.total_count_change,
)
collect w publication_matched p = some (
  record p {
    matched_status = record w.matched_status {
      total_count_change = pos 0;
      current_count_change = pos 0;
    };
    matched_changed = false;
  },
  w.matched_status.total_count_change,
)
collect w _ p = none

-- `none` is a write past the end of `on_new_event_cb`, at RMW_EVENT_INVALID.
unfoldable pub set_on_new_event_callback :
    WriterStatus → EventType → ℕ → Option ℕ → PublisherInfo → Option (PublisherInfo × RmwRet)
unfolding collect install uninstall
set_on_new_event_callback w e user_data (some cb) p = elim (collect w e p) [
  | none ↦ some (p, ret_unsupported)
  | some (q, changes) ↦
      some (record q { notifier = install e user_data cb changes q.notifier }, ret_ok)
]
set_on_new_event_callback w invalid user_data none p = none
set_on_new_event_callback w e user_data none p =
    some (record p { notifier = uninstall e p.notifier }, ret_ok)
