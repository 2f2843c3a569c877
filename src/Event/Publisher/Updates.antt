-- ===== src/Event/Publisher/Updates.antt =====
-- The status updates that DDS delivers to a `PublisherInfo` and what they leave for `get_status`, in
-- rmw_gurumdds_cpp/src/event_info_common.cpp.
use rmw_gurumdds.Base.{◌≡◌, ap₂, sym, ◌∙◌, true, List, [], ◌∷◌, some}
use rmw_gurumdds.Base.Int.{ℤ, pos, ◌+ℤ◌, +ℤ_assoc, +ℤ-zero}
use rmw_gurumdds.Event.Converter.{
  EventType, liveliness_lost, offered_deadline_missed, offered_qos_incompatible,
  publisher_incompatible_type, publication_matched,
}
use rmw_gurumdds.Event.Notifier.{CountStatus, PolicyStatus, MatchedStatus}
use rmw_gurumdds.Event.Publisher.{
  PublisherInfo, update_inconsistent_topic, on_offered_deadline_missed, on_offered_incompatible_qos,
  on_liveliness_lost, on_publication_matched,
}
use rmw_gurumdds.Event.Publisher.Status.{flag}

-- One call of a listener function of the writer or of its topic.
pub data Update : Type 0 where
  topic_inconsistent : ℤ → ℤ → Update
  deadline_missed : CountStatus → Update
  qos_incompatible : PolicyStatus → Update
  liveliness_is_lost : CountStatus → Update
  publication_is_matched : MatchedStatus → Update

unfoldable pub handle : Update → PublisherInfo → PublisherInfo
unfolding update_inconsistent_topic on_offered_deadline_missed on_offered_incompatible_qos
    on_liveliness_lost on_publication_matched
handle (topic_inconsistent total change) p = update_inconsistent_topic total change p
handle (deadline_missed st) p = on_offered_deadline_missed st p
handle (qos_incompatible st) p = on_offered_incompatible_qos st p
handle (liveliness_is_lost st) p = on_liveliness_lost st p
handle (publication_is_matched st) p = on_publication_matched st p

unfoldable pub handle_all : List Update → PublisherInfo → PublisherInfo
unfolding handle
handle_all [] p = p
handle_all (u ∷ us) p = handle_all us (handle u p)

-- The matched statuses among the updates.
unfoldable pub matches : List Update → List MatchedStatus
matches [] = []
matches (publication_is_matched st ∷ us) = st ∷ matches us
matches (_ ∷ us) = matches us

-- The sum of the changes of a field.
unfoldable pub sum_of : (MatchedStatus → ℤ) → List MatchedStatus → ℤ
sum_of f [] = pos 0
sum_of f (st ∷ sts) = f st +ℤ sum_of f sts

-- The last value of a field, `v` if there is none.
unfoldable pub last_of : (MatchedStatus → ℤ) → ℤ → List MatchedStatus → ℤ
last_of f v [] = v
last_of f v (st ∷ sts) = last_of f (f st) sts

-- The status that the updates leave, told from the updates alone.
unfoldable pub matched_after : List MatchedStatus → MatchedStatus → MatchedStatus
unfolding sum_of last_of
matched_after sts st = record {
  total_count = last_of (λ s. s.total_count) st.total_count sts;
  total_count_change = st.total_count_change +ℤ sum_of (λ s. s.total_count_change) sts;
  current_count = last_of (λ s. s.current_count) st.current_count sts;
  current_count_change = st.current_count_change +ℤ sum_of (λ s. s.current_count_change) sts;
}

change_both :
    (st : MatchedStatus) {a b c d : ℤ}
    → a ≡ c
    → b ≡ d
    → ◌≡◌ {A = MatchedStatus}
        (record st { total_count_change = a; current_count_change = b })
        (record st { total_count_change = c; current_count_change = d })
change_both st p q = ap₂ (λ a b. record st { total_count_change = a; current_count_change = b }) p q

-- After any updates, in any order, the stored matched status has the last totals, and its changes are
-- the changes of all the matched updates on top of those that were stored before.
pub matched_status-handle_all :
    (us : List Update) (p : PublisherInfo)
    → (handle_all us p).matched_status ≡ matched_after (matches us) p.matched_status
unfolding handle_all handle matches matched_after sum_of last_of
matched_status-handle_all [] p = sym (change_both p.matched_status (+ℤ-zero _) (+ℤ-zero _))
matched_status-handle_all (publication_is_matched st ∷ us) p =
    matched_status-handle_all us (on_publication_matched st p)
    ∙ change_both (matched_after (st ∷ matches us) p.matched_status) (+ℤ_assoc _ _ _)
        (+ℤ_assoc _ _ _)
matched_status-handle_all (topic_inconsistent _ _ ∷ us) p = matched_status-handle_all us _
matched_status-handle_all (deadline_missed _ ∷ us) p = matched_status-handle_all us _
matched_status-handle_all (qos_incompatible _ ∷ us) p = matched_status-handle_all us _
matched_status-handle_all (liveliness_is_lost _ ∷ us) p = matched_status-handle_all us _

-- The event that an update raises.
unfoldable pub event_of : Update → EventType
event_of (topic_inconsistent _ _) = publisher_incompatible_type
event_of (deadline_missed _) = offered_deadline_missed
event_of (qos_incompatible _) = offered_qos_incompatible
event_of (liveliness_is_lost _) = liveliness_lost
event_of (publication_is_matched _) = publication_matched

-- An event is pending: its flag and its guard condition are both set.
unfoldable pub IsPending : EventType → PublisherInfo → Type 0
unfolding flag
IsPending e p = (flag e p ≡ some true) × (p.notifier.triggered e ≡ true)
