-- ===== src/Event/Publisher/Status.antt =====
-- `get_status` and `is_status_changed` of `PublisherInfo`, in
-- rmw_gurumdds_cpp/src/event_info_common.cpp.
use rmw_gurumdds.Base.{Bool, true, false, ◌||◌, Option, none, some}
use rmw_gurumdds.Event.Converter.{
  EventType, liveliness_lost, offered_deadline_missed, offered_qos_incompatible,
  publisher_incompatible_type, publication_matched, get_status_kind_from_rmw, has_bits, RmwRet,
  ret_ok, ret_unsupported,
}
use rmw_gurumdds.Event.Policy.{convert_qos_policy}
use rmw_gurumdds.Event.Notifier.{
  current, clear_count, clear_policy, clear_matched, report_policy, RmwStatus, counted, matched,
  set_trigger, has_callback_unsafe,
}
use rmw_gurumdds.Event.Publisher.{PublisherInfo, WriterStatus}

-- The branches of `get_status`: the state with the changes taken out, and what is written to
-- `event`. `none` is the last branch.
unfoldable pub take_status :
    WriterStatus → EventType → PublisherInfo → Option (PublisherInfo × RmwStatus)
unfolding convert_qos_policy
take_status w liveliness_lost p =
    let st = current p.liveliness_changed p.liveliness w.liveliness in
    some (record p { liveliness = clear_count st; liveliness_changed = false }, counted st)
take_status w offered_deadline_missed p =
    let st = current p.deadline_changed p.deadline w.deadline in
    some (record p { deadline = clear_count st; deadline_changed = false }, counted st)
take_status w offered_qos_incompatible p =
    let st = current p.qos_changed p.qos w.qos in
    some (record p { qos = clear_policy st; qos_changed = false }, report_policy st)
take_status w publisher_incompatible_type p =
    let st = current p.inconsistent_topic_changed p.inconsistent_topic w.inconsistent_topic in
    some (
      record p { inconsistent_topic = clear_count st; inconsistent_topic_changed = false },
      counted st,
    )
take_status w publication_matched p =
    let st = current p.matched_changed p.matched_status w.matched_status in
    some (record p { matched_status = clear_matched st; matched_changed = false }, matched st)
take_status w _ p = none

unfoldable pub get_status :
    WriterStatus → EventType → PublisherInfo → PublisherInfo × RmwRet × Option RmwStatus
unfolding take_status set_trigger
get_status w e p = elim (take_status w e p) [
  | none ↦ (p, ret_unsupported, none)
  | some (q, st) ↦ (record q { notifier = set_trigger e false q.notifier }, ret_ok, some st)
]

-- The switch of `is_status_changed`.
unfoldable pub flag : EventType → PublisherInfo → Option Bool
flag liveliness_lost p = some p.liveliness_changed
flag offered_deadline_missed p = some p.deadline_changed
flag offered_qos_incompatible p = some p.qos_changed
flag publisher_incompatible_type p = some p.inconsistent_topic_changed
flag publication_matched p = some p.matched_changed
flag _ p = none

-- The end of `is_status_changed`, with what is known to have changed.
abbrev pub or_writer_changed : WriterStatus → EventType → Bool → Bool
or_writer_changed w e changed = has_bits w.changes (get_status_kind_from_rmw e) || changed

unfoldable pub is_status_changed : WriterStatus → EventType → PublisherInfo → PublisherInfo × Bool
unfolding flag has_callback_unsafe set_trigger has_bits get_status_kind_from_rmw
is_status_changed w e p = elim (has_callback_unsafe e p.notifier) [
  | false ↦ (p, or_writer_changed w e false)
  | true ↦ elim (flag e p) [
    | none ↦ (p, false)
    | some false ↦ (p, or_writer_changed w e false)
    | some true ↦
        (record p { notifier = set_trigger e false p.notifier }, or_writer_changed w e true)
  ]
]
