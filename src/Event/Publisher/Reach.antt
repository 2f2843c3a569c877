-- ===== src/Event/Publisher/Reach.antt =====
-- The states that a `PublisherInfo` of rmw_gurumdds_cpp/src/event_info_common.cpp reaches: every
-- method holds `mutex_event`, so a run is a sequence of whole methods.
use rmw_gurumdds.Base.{arith, ◌≡◌, refl, ap, sym, ◌∙◌, ℕ, true, Option, none, some}
use rmw_gurumdds.Base.Int.{ℤ}
use rmw_gurumdds.Event.Converter.{
  EventType, liveliness_lost, offered_deadline_missed, offered_qos_incompatible,
  publisher_incompatible_type, publication_matched, liveliness_changed, requested_deadline_missed,
  requested_qos_incompatible, message_lost, subscription_incompatible_type, subscription_matched,
  invalid, RmwRet, ret_ok, ret_unsupported,
}
use rmw_gurumdds.Event.Notifier.{notify, Notifier, run_callback, set_trigger, install, uninstall}
use rmw_gurumdds.Event.Publisher.{PublisherInfo, WriterStatus, set_on_new_event_callback}
use rmw_gurumdds.Event.Publisher.Status.{take_status, get_status, is_status_changed}
use rmw_gurumdds.Event.Publisher.Updates.{Update, handle, event_of}
use rmw_gurumdds.Event.Publisher.Pending.{update_same, notifier-handle, changes_of}
use rmw_gurumdds.Event.Publisher.Callbacks.{
  is_publisher_event, Consistent, install-Consistent, uninstall-Consistent, same-Consistent,
  collect-publisher,
}
use mathlib.Core.Bool.{false≢true}
use mathlib.Core.Option.{some-injective}
use mathlib.Core.Path.{subst}

-- One method call, made for an event of a publisher.
pub data Step (p : PublisherInfo) : PublisherInfo → Type 0 where
  updated : (u : Update) → Step p (handle u p)
  callback_set :
      (w : WriterStatus) (e : EventType) (user_data : ℕ) (cb : Option ℕ) {q : PublisherInfo}
      {ret : RmwRet}
      → is_publisher_event e ≡ true
      → set_on_new_event_callback w e user_data cb p ≡ some (q, ret)
      → Step p q
  status_got : (w : WriterStatus) (e : EventType) → Step p (get_status w e p).0
  status_asked : (w : WriterStatus) (e : EventType) → Step p (is_status_changed w e p).0

pub data Run (p : PublisherInfo) : PublisherInfo → Type 0 where
  start : Run p p
  next : {q r : PublisherInfo} → Run p q → Step q r → Run p r

run_callback-Consistent :
    (e : EventType) (changes : ℤ) (n : Notifier)
    → Consistent n
    → Consistent (run_callback e changes n)
unfolding run_callback
run_callback-Consistent e changes n = same-Consistent (ground arith) (ground arith) (ground arith)

notify-Consistent :
    (e : EventType) (changes : ℤ) (n : Notifier) → Consistent n → Consistent (notify e changes n)
unfolding set_trigger
notify-Consistent e changes n c =
    same-Consistent refl refl refl (run_callback-Consistent e changes n c)

-- set_on_new_event_callback with a callback, from what the switch gives.
abbrev set_after :
    EventType → ℕ → ℕ → PublisherInfo → Option (PublisherInfo × ℤ) → Option (PublisherInfo × RmwRet)
set_after e user_data cb p none = some (p, ret_unsupported)
set_after e user_data cb p (some (q, changes)) =
    some (record q { notifier = install e user_data cb changes q.notifier }, ret_ok)

unset :
    (w : WriterStatus) (e : EventType) (user_data : ℕ) (p : PublisherInfo)
    → is_publisher_event e ≡ true
    → set_on_new_event_callback w e user_data none p
      ≡ some (record p { notifier = uninstall e p.notifier }, ret_ok)
unfolding set_on_new_event_callback is_publisher_event
unset w liveliness_lost user_data p mine = refl
unset w offered_deadline_missed user_data p mine = refl
unset w offered_qos_incompatible user_data p mine = refl
unset w publisher_incompatible_type user_data p mine = refl
unset w publication_matched user_data p mine = refl
unset w liveliness_changed user_data p mine = absurd (false≢true mine)
unset w requested_deadline_missed user_data p mine = absurd (false≢true mine)
unset w requested_qos_incompatible user_data p mine = absurd (false≢true mine)
unset w message_lost user_data p mine = absurd (false≢true mine)
unset w subscription_incompatible_type user_data p mine = absurd (false≢true mine)
unset w subscription_matched user_data p mine = absurd (false≢true mine)
unset w invalid user_data p mine = absurd (false≢true mine)

-- set_on_new_event_callback for an event of a publisher returns ok, keeps the table of callbacks
-- consistent with the mask, and leaves the given callback, or none, in the table.
pub set_on_new_event_callback-Consistent :
    (w : WriterStatus) (e : EventType) (user_data : ℕ) (cb : Option ℕ) (p : PublisherInfo)
    → is_publisher_event e ≡ true
    → Consistent p.notifier
    → (q : PublisherInfo) × (set_on_new_event_callback w e user_data cb p ≡ some (q, ret_ok))
      × Consistent q.notifier
      × (q.notifier.on_new_event_cb e ≡ cb)
unfolding set_on_new_event_callback install uninstall
set_on_new_event_callback-Consistent w e user_data (some cb) p mine c =
    let (q, changes, eq, same) = collect-publisher w e p mine in
    (
      record q { notifier = install e user_data cb changes q.notifier },
      ap (set_after e user_data cb p) eq,
      install-Consistent e user_data cb changes q.notifier mine (subst Consistent (sym same) c),
      update_same q.notifier.on_new_event_cb e (some cb),
    )
set_on_new_event_callback-Consistent w e user_data none p mine c = (
  record p { notifier = uninstall e p.notifier },
  unset w e user_data p mine,
  uninstall-Consistent e p.notifier mine c,
  update_same p.notifier.on_new_event_cb e none,
)

get_status-Consistent :
    (w : WriterStatus) (e : EventType) (p : PublisherInfo)
    → Consistent p.notifier
    → Consistent (get_status w e p).0.notifier
unfolding get_status take_status set_trigger
get_status-Consistent w liveliness_lost p c = same-Consistent refl refl refl c
get_status-Consistent w offered_deadline_missed p c = same-Consistent refl refl refl c
get_status-Consistent w offered_qos_incompatible p c = same-Consistent refl refl refl c
get_status-Consistent w publisher_incompatible_type p c = same-Consistent refl refl refl c
get_status-Consistent w publication_matched p c = same-Consistent refl refl refl c
get_status-Consistent w liveliness_changed p c = c
get_status-Consistent w requested_deadline_missed p c = c
get_status-Consistent w requested_qos_incompatible p c = c
get_status-Consistent w message_lost p c = c
get_status-Consistent w subscription_incompatible_type p c = c
get_status-Consistent w subscription_matched p c = c
get_status-Consistent w invalid p c = c

is_status_changed-Consistent :
    (w : WriterStatus) (e : EventType) (p : PublisherInfo)
    → Consistent p.notifier
    → Consistent (is_status_changed w e p).0.notifier
unfolding is_status_changed set_trigger
is_status_changed-Consistent w e p = same-Consistent (ground arith) (ground arith) (ground arith)

Step-Consistent : {p q : PublisherInfo} → Step p q → Consistent p.notifier → Consistent q.notifier
Step-Consistent {p} (updated u) c =
    subst Consistent (sym (notifier-handle u p))
      (notify-Consistent (event_of u) (changes_of u p) p.notifier c)
Step-Consistent {p} (callback_set w e user_data cb mine eq) c =
    let (q', eq', c', _) = set_on_new_event_callback-Consistent w e user_data cb p mine c in
    subst (λ o. Consistent o.0.notifier) (some-injective _ _ (sym eq' ∙ eq)) c'
Step-Consistent {p} (status_got w e) c = get_status-Consistent w e p c
Step-Consistent {p} (status_asked w e) c = is_status_changed-Consistent w e p c

-- In every state that method calls for events of a publisher reach from a consistent one, an event
-- of a publisher has a callback exactly if the bit of its kind is in the mask, and that mask is
-- the one the listener of the writer was given.
pub Run-Consistent : {p q : PublisherInfo} → Run p q → Consistent p.notifier → Consistent q.notifier
Run-Consistent start c = c
Run-Consistent (next run step) c = Step-Consistent step (Run-Consistent run c)
