-- ===== src/Event/Publisher/Deadline.antt =====
-- Missed deadlines of a `PublisherInfo`: `on_offered_deadline_missed` and `get_status` in
-- rmw_gurumdds_cpp/src/event_info_common.cpp.
use rmw_gurumdds.Base.{◌≡◌, refl, ap, ◌∙◌, true, List, [], ◌∷◌, some}
use rmw_gurumdds.Event.Converter.{offered_deadline_missed, ret_ok}
use rmw_gurumdds.Event.Notifier.{current, CountStatus, counted}
use rmw_gurumdds.Event.Publisher.{PublisherInfo, WriterStatus}
use rmw_gurumdds.Event.Publisher.Status.{take_status, get_status, flag}
use rmw_gurumdds.Event.Publisher.Updates.{
  Update, topic_inconsistent, deadline_missed, qos_incompatible, liveliness_is_lost,
  publication_is_matched, handle, handle_all, event_of, IsPending,
}
use rmw_gurumdds.Event.Publisher.Pending.{IsPending-handle_all}
use mathlib.Core.Option.{some-injective}

deadline-handle_all :
    (us : List Update) (p : PublisherInfo) → (handle_all us p).deadline ≡ p.deadline
unfolding handle_all handle
deadline-handle_all [] p = refl
deadline-handle_all (topic_inconsistent _ _ ∷ us) p = deadline-handle_all us _
deadline-handle_all (deadline_missed _ ∷ us) p = deadline-handle_all us _
deadline-handle_all (qos_incompatible _ ∷ us) p = deadline-handle_all us _
deadline-handle_all (liveliness_is_lost _ ∷ us) p = deadline-handle_all us _
deadline-handle_all (publication_is_matched _ ∷ us) p = deadline-handle_all us _

flag-deadline :
    (st : CountStatus) (us : List Update) (p : PublisherInfo)
    → (handle_all (deadline_missed st ∷ us) p).deadline_changed ≡ true
unfolding flag IsPending event_of
flag-deadline st us p = some-injective _ _ (IsPending-handle_all (deadline_missed st) us p).0

-- After a missed deadline and any further updates, get_status for the missed deadlines succeeds
-- and reports the deadline status that was stored before those updates, whatever the writer would
-- report and whatever the updates said.
pub get_status-deadline :
    (w : WriterStatus) (st : CountStatus) (us : List Update) (p : PublisherInfo)
    → let out = get_status w offered_deadline_missed (handle_all (deadline_missed st ∷ us) p) in
      (out.1 ≡ ret_ok) × (out.2 ≡ some (counted p.deadline))
unfolding get_status take_status
get_status-deadline w st us p =
    let p' : PublisherInfo = handle_all (deadline_missed st ∷ us) p in
    (
      refl,
      ap (λ changed. some (counted (current changed p'.deadline w.deadline)))
            (flag-deadline st us p)
          ∙ ap (λ d. some (counted d)) (deadline-handle_all (deadline_missed st ∷ us) p),
    )
