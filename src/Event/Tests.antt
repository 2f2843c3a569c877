-- ===== src/Event/Tests.antt =====
-- The event theorems at concrete states of rmw_gurumdds_cpp/src/event_info_common.cpp.
use rmw_gurumdds.Base.{sym, ◌≡◌, refl, true, false, List, [], ◌∷◌, Option, none, some}
use rmw_gurumdds.Base.Int.{pos}
use rmw_gurumdds.Event.Converter.{
  liveliness_lost, offered_deadline_missed, publication_matched, message_lost, StatusMask,
  StatusKind, get_status_kind_from_rmw, has_bits, ret_ok, EventType-discrete,
}
use rmw_gurumdds.Event.Policy.{deadline}
use rmw_gurumdds.Event.Notifier.{
  Notifier, CountStatus, PolicyStatus, MatchedStatus, AliveStatus, counted, matched,
  has_callback_unsafe, set_trigger,
}
use rmw_gurumdds.Event.Publisher.{PublisherInfo, WriterStatus, set_on_new_event_callback}
use rmw_gurumdds.Event.Publisher.Status.{get_status, is_status_changed}
use rmw_gurumdds.Event.Publisher.Updates.{
  Update, deadline_missed, liveliness_is_lost, publication_is_matched, handle, handle_all, matches,
  matched_after, event_of, IsPending,
}
use rmw_gurumdds.Event.Publisher.Pending.{IsPending-handle_all, get_status-matched}
use rmw_gurumdds.Event.Publisher.Deadline.{get_status-deadline}
use rmw_gurumdds.Event.Publisher.Callbacks.{Consistent, is_publisher_event, is_some}
use rmw_gurumdds.Event.Publisher.Reach.{
  start, next, updated, status_asked, set_on_new_event_callback-Consistent, Run-Consistent,
}
use rmw_gurumdds.Event.Publisher.Asked.{bit_of, is_watched, is_raised, is_status_changed-get_status}
use rmw_gurumdds.Event.Subscriber.{SubscriberInfo, ReaderStatus}
use rmw_gurumdds.Event.Subscriber.Status as Reader
use rmw_gurumdds.Event.Subscriber.Losses.{
  lose_all, lost_after, get_status-lost, is_status_changed-lost,
}
use rmw_gurumdds.Event.Topic.{
  put, mem, associate_listener, disassociate_listener, change_events, add_event,
  on_inconsistent_topic,
}
use rmw_gurumdds.Event.Topic.Reach.{
  Reachable, no_topics, associated, disassociated, event_added, at_once, spares,
  on_inconsistent_topic-reachable,
}
use rmw_gurumdds.Event.Topic.Reach as Topics

abbrev no_count : CountStatus
no_count = record { total_count = pos 0; total_count_change = pos 0 }

abbrev no_policy : PolicyStatus
no_policy = record { total_count = pos 0; total_count_change = pos 0; last_policy_id = deadline }

abbrev no_match : MatchedStatus
no_match = record {
  total_count = pos 0;
  total_count_change = pos 0;
  current_count = pos 0;
  current_count_change = pos 0;
}

abbrev one_match : MatchedStatus
one_match = record {
  total_count = pos 1;
  total_count_change = pos 1;
  current_count = pos 1;
  current_count_change = pos 1;
}

abbrev one_missed : CountStatus
one_missed = record { total_count = pos 1; total_count_change = pos 1 }

abbrev no_alive : AliveStatus
no_alive = record {
  alive_count = pos 0;
  not_alive_count = pos 0;
  alive_count_change = pos 0;
  not_alive_count_change = pos 0;
}

abbrev no_bits : StatusMask
no_bits kind = false

-- No callback, no bit, nothing triggered.
abbrev quiet : Notifier
quiet = record {
  on_new_event_cb = λ e. none;
  user_data_cb = λ e. 0;
  triggered = λ e. false;
  mask = no_bits;
  listener_mask = no_bits;
  calls = [];
}

abbrev new_publisher : PublisherInfo
new_publisher = record {
  notifier = quiet;
  inconsistent_topic_changed = false;
  inconsistent_topic = no_count;
  deadline_changed = false;
  deadline = no_count;
  qos_changed = false;
  qos = no_policy;
  liveliness_changed = false;
  liveliness = no_count;
  matched_changed = false;
  matched_status = no_match;
}

abbrev idle_writer : WriterStatus
idle_writer = record {
  inconsistent_topic = no_count;
  deadline = no_count;
  qos = no_policy;
  liveliness = no_count;
  matched_status = no_match;
  changes = no_bits;
}

-- A subscription whose mask has the bit of lost messages.
abbrev watching : SubscriberInfo
watching = record {
  notifier = record quiet { mask = λ kind. true };
  inconsistent_topic_changed = false;
  inconsistent_topic = no_count;
  alive_changed = false;
  alive_status = no_alive;
  deadline_changed = false;
  deadline = no_count;
  qos_changed = false;
  qos = no_policy;
  sample_lost_changed = false;
  sample_lost = no_count;
  matched_changed = false;
  matched_status = no_match;
}

abbrev idle_reader : ReaderStatus
idle_reader = record {
  inconsistent_topic = no_count;
  alive_status = no_alive;
  deadline = no_count;
  qos = no_policy;
  sample_lost = no_count;
  matched_status = no_match;
  changes = no_bits;
}

abbrev later : List Update
later = liveliness_is_lost one_missed ∷ publication_is_matched one_match ∷ []

no_bits_set : (kind : Option StatusKind) → has_bits no_bits kind ≡ false
unfolding has_bits
no_bits_set none = refl
no_bits_set (some kind) = refl

quiet-Consistent : Consistent quiet
unfolding is_some has_bits
quiet-Consistent = record {
  bits = λ e mine. sym (no_bits_set (get_status_kind_from_rmw e));
  listens = refl;
}

IsPending-handle_all_example :
    IsPending offered_deadline_missed
      (handle_all (deadline_missed one_missed ∷ later) new_publisher)
unfolding event_of
IsPending-handle_all_example = IsPending-handle_all (deadline_missed one_missed) later new_publisher

get_status-matched_example :
    let sts = one_match ∷ matches later in
    let out =
      get_status idle_writer publication_matched
        (handle_all (publication_is_matched one_match ∷ later) new_publisher) in
    (out.1 ≡ ret_ok)
    × (out.2 ≡ some (matched (matched_after sts no_match)))
    × (out.0.matched_status.total_count_change ≡ pos 0)
    × (out.0.matched_status.current_count_change ≡ pos 0)
    × (out.0.matched_changed ≡ false)
    × (out.0.notifier.triggered publication_matched ≡ false)
get_status-matched_example = get_status-matched idle_writer one_match later new_publisher

get_status-deadline_example :
    let out =
      get_status idle_writer offered_deadline_missed
        (handle_all (deadline_missed one_missed ∷ later) new_publisher) in
    (out.1 ≡ ret_ok) × (out.2 ≡ some (counted no_count))
get_status-deadline_example = get_status-deadline idle_writer one_missed later new_publisher

set_on_new_event_callback-Consistent_example :
    (q : PublisherInfo) × (set_on_new_event_callback idle_writer liveliness_lost 7
        (some 9)
        new_publisher
      ≡ some (q, ret_ok))
    × Consistent q.notifier
    × (q.notifier.on_new_event_cb liveliness_lost ≡ some 9)
unfolding is_publisher_event
set_on_new_event_callback-Consistent_example =
    set_on_new_event_callback-Consistent idle_writer liveliness_lost 7 (some 9) new_publisher refl
      quiet-Consistent

Run-Consistent_example :
    Consistent
      (is_status_changed idle_writer liveliness_lost
        (handle (liveliness_is_lost one_missed) new_publisher)).0.notifier
Run-Consistent_example =
    Run-Consistent
      (next (next start (updated (liveliness_is_lost one_missed)))
        (status_asked idle_writer liveliness_lost))
      quiet-Consistent

abbrev watched_publisher : PublisherInfo
watched_publisher = record new_publisher { notifier = record quiet { mask = λ kind. true } }

-- The liveliness is lost after get_status, in a publisher that watches all its events.
is_status_changed-get_status_example :
    let q = handle_all later (get_status idle_writer liveliness_lost watched_publisher).0 in
    is_status_changed idle_writer liveliness_lost q
    ≡ (record q { notifier = set_trigger liveliness_lost false q.notifier }, true)
unfolding is_publisher_event is_watched bit_of is_raised event_of EventType-discrete
is_status_changed-get_status_example =
    is_status_changed-get_status idle_writer idle_writer liveliness_lost later watched_publisher
      refl

get_status-lost_example :
    let out =
      Reader.get_status idle_reader message_lost
        (lose_all (one_missed ∷ one_missed ∷ []) watching) in
    (out.1 ≡ ret_ok)
    × (out.2 ≡ some (counted (lost_after (one_missed ∷ one_missed ∷ []) no_count)))
    × (out.0.sample_lost.total_count_change ≡ pos 0)
    × (out.0.sample_lost_changed ≡ false)
get_status-lost_example = get_status-lost idle_reader one_missed (one_missed ∷ []) watching

is_status_changed-lost_example :
    let p' = lose_all (one_missed ∷ []) watching in
    (p'.sample_lost_changed ≡ true)
    × (Reader.is_status_changed idle_reader message_lost p' ≡ (p', false))
unfolding has_callback_unsafe
is_status_changed-lost_example = is_status_changed-lost idle_reader one_missed [] watching refl

-- While the callback waits for the mutex of the listener at 40, another topic is disassociated.
on_inconsistent_topic-reachable_example :
    let t = add_event 5 77 (associate_listener (some 40) 5 no_topics).0 in
    let u = (disassociate_listener 6 t).0 in
    (on_inconsistent_topic 5 t u ≡ some [])
    × (on_inconsistent_topic 5 t (disassociate_listener 5 u).0 ≡ none)
unfolding add_event change_events associate_listener put mem spares
on_inconsistent_topic-reachable_example =
    on_inconsistent_topic-reachable 5
      (Topics.next (Topics.next Topics.start (associated (some 40) 5 refl)) (event_added 5 77))
      (Topics.later at_once (disassociated 6) refl)
