-- ===== src/Event/Notifier.antt =====
-- What publishers and subscriptions share in rmw_gurumdds_cpp/src/event_info_common.cpp: the tables
-- of callbacks, the guard conditions, the mask, and the status records.
use rmw_gurumdds.Base.{ℕ, Bool, true, if◌then◌else◌, Option, none, some, List, [], ◌∷◌, ◌++◌}
use rmw_gurumdds.Base.Int.{ℤ, pos, ◌+ℤ◌, is_positive}
use rmw_gurumdds.Event.Converter.{
  EventType, EventType-discrete, inconsistent_topic_status, StatusMask, get_status_kind_from_rmw,
  set_bits, clear_bits, has_bits,
}
use rmw_gurumdds.Event.Policy.{PolicyId, PolicyKind, convert_qos_policy}
use mathlib.Core.Logic.{ite}

-- A call `callback(user_data, changes)`.
pub record Call : Type 0 where
  pub callback : ℕ
  pub user_data : ℕ
  pub changes : ℤ

-- `on_new_event_cb`, `user_data_cb`, the trigger values behind `event_guard_cond`, `mask`, the mask
-- that the DDS entity's listener was last given, and the calls made, the latest last.
pub record Notifier : Type 0 where
  pub on_new_event_cb : EventType → Option ℕ
  pub user_data_cb : EventType → ℕ
  pub triggered : EventType → Bool
  pub mask : StatusMask
  pub listener_mask : StatusMask
  pub calls : List Call

-- The status records of DDS. Counts are of type `int32_t`; their overflow, undefined in C++, is left
-- out.
pub record CountStatus : Type 0 where
  pub total_count : ℤ
  pub total_count_change : ℤ

pub record PolicyStatus : Type 0 where
  pub total_count : ℤ
  pub total_count_change : ℤ
  pub last_policy_id : PolicyId

pub record MatchedStatus : Type 0 where
  pub total_count : ℤ
  pub total_count_change : ℤ
  pub current_count : ℤ
  pub current_count_change : ℤ

pub record AliveStatus : Type 0 where
  pub alive_count : ℤ
  pub not_alive_count : ℤ
  pub alive_count_change : ℤ
  pub not_alive_count_change : ℤ

-- What `get_status` writes to its output argument.
pub data RmwStatus : Type 0 where
  counted : CountStatus → RmwStatus
  incompatible : CountStatus → PolicyKind → RmwStatus
  matched : MatchedStatus → RmwStatus
  alive : AliveStatus → RmwStatus

unfoldable pub update {ℓ} : {A : Type ℓ} → (EventType → A) → EventType → A → EventType → A
unfolding EventType-discrete
update f e v x = ite (EventType-discrete e x) v (f x)

-- `if(nullptr != callback) callback(user_data, changes);` for the callback of one event.
unfoldable pub run_callback : EventType → ℤ → Notifier → Notifier
run_callback e changes n = elim (n.on_new_event_cb e) [
  | none ↦ n
  | some cb ↦ record n {
    calls =
        n.calls ++ record { callback = cb; user_data = n.user_data_cb e; changes = changes } ∷ [];
  }
]

-- `dds_GuardCondition_set_trigger_value(event_guard_cond[event], value)`
unfoldable pub set_trigger : EventType → Bool → Notifier → Notifier
unfolding update
set_trigger e value n = record n { triggered = update n.triggered e value }

-- The end of `set_on_new_event_callback` with a callback, `changes` having been collected.
unfoldable pub install : EventType → ℕ → ℕ → ℤ → Notifier → Notifier
unfolding update get_status_kind_from_rmw set_bits
install e user_data cb changes n =
    let mask = set_bits (get_status_kind_from_rmw e) n.mask in
    let call : Call = record { callback = cb; user_data = user_data; changes = changes } in
    record n {
      calls = if is_positive changes then n.calls ++ call ∷ [] else n.calls;
      mask = mask;
      on_new_event_cb = update n.on_new_event_cb e (some cb);
      user_data_cb = update n.user_data_cb e user_data;
      listener_mask = mask;
    }

-- The branch without a callback; the null pointer for user data is 0.
unfoldable pub uninstall : EventType → Notifier → Notifier
unfolding update get_status_kind_from_rmw clear_bits
uninstall e n =
    let mask = clear_bits (get_status_kind_from_rmw e) n.mask in
    record n {
      mask = mask;
      on_new_event_cb = update n.on_new_event_cb e none;
      user_data_cb = update n.user_data_cb e 0;
      listener_mask = mask;
    }

-- `((mask | dds_INCONSISTENT_TOPIC_STATUS) & kind) > 0`
unfoldable pub has_callback_unsafe : EventType → Notifier → Bool
unfolding get_status_kind_from_rmw set_bits has_bits
has_callback_unsafe e n =
    has_bits (set_bits (some inconsistent_topic_status) n.mask) (get_status_kind_from_rmw e)

-- `status.total_count_change += change; status.total_count = total;`
abbrev pub add_count : ℤ → ℤ → CountStatus → CountStatus
add_count total change st = record {
  total_count = total;
  total_count_change = st.total_count_change +ℤ change;
}

-- The callback, then the guard condition.
abbrev pub notify : EventType → ℤ → Notifier → Notifier
notify e changes n = set_trigger e true (run_callback e changes n)

-- The status to report: the stored one if it changed, else the one DDS has.
abbrev pub current {ℓ} : {A : Type ℓ} → Bool → A → A → A
current changed stored fetched = if changed then stored else fetched

-- `total_count_change = 0`
abbrev pub clear_count : CountStatus → CountStatus
clear_count st = record st { total_count_change = pos 0 }

abbrev pub clear_policy : PolicyStatus → PolicyStatus
clear_policy st = record st { total_count_change = pos 0 }

abbrev pub clear_matched : MatchedStatus → MatchedStatus
clear_matched st = record st { total_count_change = pos 0; current_count_change = pos 0 }

abbrev pub report_policy : PolicyStatus → RmwStatus
report_policy st =
    incompatible record { total_count = st.total_count; total_count_change = st.total_count_change }
      (convert_qos_policy st.last_policy_id)

abbrev pub clear_alive : AliveStatus → AliveStatus
clear_alive st = record st { alive_count_change = pos 0; not_alive_count_change = pos 0 }
