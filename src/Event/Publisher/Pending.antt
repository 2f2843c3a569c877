-- ===== src/Event/Publisher/Pending.antt =====
-- Which events are pending for a `PublisherInfo`: its flags and guard conditions after the updates of
-- rmw_gurumdds_cpp/src/event_info_common.cpp.
use rmw_gurumdds.Base.{arith, ◌≡◌, refl, ap, ◌∙◌, Bool, true, false, List, [], ◌∷◌, some}
use rmw_gurumdds.Base.Int.{ℤ, pos, ◌+ℤ◌}
use mathlib.Core.Option.{some-injective}
use rmw_gurumdds.Event.Converter.{EventType, publication_matched, ret_ok}
use rmw_gurumdds.Event.Notifier.{
  notify, current, Notifier, update, run_callback, set_trigger, matched, MatchedStatus,
}
use rmw_gurumdds.Event.Publisher.{PublisherInfo, WriterStatus}
use rmw_gurumdds.Event.Publisher.Status.{take_status, get_status, flag}
use rmw_gurumdds.Event.Publisher.Updates.{
  Update, topic_inconsistent, deadline_missed, qos_incompatible, liveliness_is_lost,
  publication_is_matched, handle, handle_all, matches, matched_after, event_of, IsPending,
  matched_status-handle_all,
}

pub update_same {ℓ} : {A : Type ℓ} (f : EventType → A) (e : EventType) (v : A) → update f e v e ≡ v
unfolding update
update_same f e v = ground arith

update_keeps : (f : EventType → Bool) (e' e : EventType) → f e ≡ true → update f e' true e ≡ true
unfolding update
update_keeps f e' e set = ground arith

triggered-run_callback :
    (e : EventType) (changes : ℤ) (n : Notifier)
    → (run_callback e changes n).triggered ≡ n.triggered
unfolding run_callback
triggered-run_callback e changes n = ground arith

triggered-notify_same :
    (e : EventType) (changes : ℤ) (n : Notifier) → (notify e changes n).triggered e ≡ true
unfolding set_trigger
triggered-notify_same e changes n = update_same (run_callback e changes n).triggered e true

triggered-notify :
    (e e' : EventType) (changes : ℤ) (n : Notifier)
    → n.triggered e ≡ true
    → (notify e' changes n).triggered e ≡ true
unfolding set_trigger
triggered-notify e e' changes n set =
    update_keeps (run_callback e' changes n).triggered e' e
      (ap (λ f. f e) (triggered-run_callback e' changes n) ∙ set)

-- What the callback of an update's event is given.
unfoldable pub changes_of : Update → PublisherInfo → ℤ
changes_of (topic_inconsistent _ change) p = change
changes_of (deadline_missed st) p = p.liveliness.total_count_change +ℤ st.total_count_change
changes_of (qos_incompatible st) p = p.qos.total_count_change +ℤ st.total_count_change
changes_of (liveliness_is_lost st) p = p.liveliness.total_count_change +ℤ st.total_count_change
changes_of (publication_is_matched st) p =
    p.matched_status.total_count_change +ℤ st.total_count_change

-- Every update notifies of its own event, and of no other.
pub notifier-handle :
    (u : Update) (p : PublisherInfo)
    → (handle u p).notifier ≡ notify (event_of u) (changes_of u p) p.notifier
unfolding handle event_of changes_of
notifier-handle (topic_inconsistent _ _) p = refl
notifier-handle (deadline_missed _) p = refl
notifier-handle (qos_incompatible _) p = refl
notifier-handle (liveliness_is_lost _) p = refl
notifier-handle (publication_is_matched _) p = refl

flag-raised : (u : Update) (p : PublisherInfo) → flag (event_of u) (handle u p) ≡ some true
unfolding handle event_of flag
flag-raised (topic_inconsistent _ _) p = refl
flag-raised (deadline_missed _) p = refl
flag-raised (qos_incompatible _) p = refl
flag-raised (liveliness_is_lost _) p = refl
flag-raised (publication_is_matched _) p = refl

raised : (u : Update) (p : PublisherInfo) → IsPending (event_of u) (handle u p)
unfolding IsPending
raised u p = (
  flag-raised u p,
  ap (λ n. n.triggered (event_of u)) (notifier-handle u p)
      ∙ triggered-notify_same (event_of u) (changes_of u p) p.notifier,
)

-- The flag of an event is set by its update and cleared by none.
flag-handle :
    (e : EventType) (u : Update) (p : PublisherInfo)
    → flag e p ≡ some true
    → flag e (handle u p) ≡ some true
unfolding handle flag
flag-handle e u p set = ground arith

stays : (e : EventType) (u : Update) (p : PublisherInfo) → IsPending e p → IsPending e (handle u p)
unfolding IsPending
stays e u p (set, trig) = (
  flag-handle e u p set,
  ap (λ n. n.triggered e) (notifier-handle u p)
      ∙ triggered-notify e (event_of u) (changes_of u p) p.notifier trig,
)

stays_all :
    (e : EventType) (us : List Update) (p : PublisherInfo)
    → IsPending e p
    → IsPending e (handle_all us p)
unfolding handle_all
stays_all e [] p pending = pending
stays_all e (u ∷ us) p pending = stays_all e us (handle u p) (stays e u p pending)

-- Whatever updates follow it, an update leaves its own event pending: the flag and the guard
-- condition of that event are set.
pub IsPending-handle_all :
    (u : Update) (us : List Update) (p : PublisherInfo)
    → IsPending (event_of u) (handle_all (u ∷ us) p)
unfolding handle_all
IsPending-handle_all u us p = stays_all (event_of u) us (handle u p) (raised u p)

flag-matched :
    (st : MatchedStatus) (us : List Update) (p : PublisherInfo)
    → (handle_all (publication_is_matched st ∷ us) p).matched_changed ≡ true
unfolding flag IsPending event_of
flag-matched st us p = some-injective _ _ (IsPending-handle_all (publication_is_matched st) us p).0

-- After a matched update and any further updates, get_status for the matched event succeeds,
-- whatever the writer would report: it reports the last totals and the changes of all the matched
-- updates on top of the stored ones. The changes are then 0, the flag is clear and the guard
-- condition of the event is not triggered.
pub get_status-matched :
    (w : WriterStatus) (st : MatchedStatus) (us : List Update) (p : PublisherInfo)
    → let sts = st ∷ matches us in
      let out = get_status w publication_matched (handle_all (publication_is_matched st ∷ us) p) in
      (out.1 ≡ ret_ok)
      × (out.2 ≡ some (matched (matched_after sts p.matched_status)))
      × ((out.0).matched_status.total_count_change ≡ pos 0)
      × ((out.0).matched_status.current_count_change ≡ pos 0)
      × ((out.0).matched_changed ≡ false)
      × ((out.0).notifier.triggered publication_matched ≡ false)
unfolding get_status take_status matches set_trigger
get_status-matched w st us p =
    let p' : PublisherInfo = handle_all (publication_is_matched st ∷ us) p in
    (
      refl,
      ap (λ changed. some (matched (current changed p'.matched_status w.matched_status)))
            (flag-matched st us p)
          ∙ ap (λ m. some (matched m))
              (matched_status-handle_all (publication_is_matched st ∷ us) p),
      refl,
      refl,
      refl,
      update_same p'.notifier.triggered publication_matched false,
    )
