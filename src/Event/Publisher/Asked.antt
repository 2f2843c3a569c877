-- ===== src/Event/Publisher/Asked.antt =====
-- What `is_status_changed` answers after a `get_status` and further updates, told from the updates
-- alone (rmw_gurumdds_cpp/src/event_info_common.cpp).
use rmw_gurumdds.Base.{
  arith, ◌&&◌, ◌||◌, ◌≡◌, refl, ap, ◌∙◌, Bool, true, false, if◌then◌else◌, List, [], ◌∷◌, some,
}
use rmw_gurumdds.Base.Int.{ℤ}
use rmw_gurumdds.Event.Converter.{
  EventType, EventType-discrete, liveliness_lost, offered_deadline_missed, offered_qos_incompatible,
  publisher_incompatible_type, publication_matched, StatusMask, StatusKind-discrete,
  liveliness_lost_status, offered_deadline_missed_status, offered_incompatible_qos_status,
  inconsistent_topic_status, publication_matched_status, mask_map, is_event_supported,
  get_status_kind_from_rmw, has_bits, set_bits, is_kind,
}
use rmw_gurumdds.Event.Notifier.{Notifier, run_callback, set_trigger, has_callback_unsafe}
use rmw_gurumdds.Event.Publisher.{PublisherInfo, WriterStatus}
use rmw_gurumdds.Event.Publisher.Status.{take_status, get_status, is_status_changed, flag}
use rmw_gurumdds.Event.Publisher.Updates.{Update, handle, handle_all, event_of}
use rmw_gurumdds.Event.Publisher.Pending.{notifier-handle, changes_of}
use rmw_gurumdds.Event.Publisher.Callbacks.{is_publisher_event}
use mathlib.Core.Logic.{ite}

-- The bit of an event of a publisher in a mask of DDS.
unfoldable pub bit_of : EventType → StatusMask → Bool
bit_of liveliness_lost mask = mask liveliness_lost_status
bit_of offered_deadline_missed mask = mask offered_deadline_missed_status
bit_of offered_qos_incompatible mask = mask offered_incompatible_qos_status
bit_of publisher_incompatible_type mask = mask inconsistent_topic_status
bit_of publication_matched mask = mask publication_matched_status
bit_of _ mask = false

-- An event that counts as one with a callback: an inconsistent topic always does.
unfoldable pub is_watched : EventType → StatusMask → Bool
unfolding bit_of
is_watched publisher_incompatible_type mask = true
is_watched e mask = bit_of e mask

-- Some of the updates is one of the event.
unfoldable pub is_raised : EventType → List Update → Bool
unfolding event_of EventType-discrete
is_raised e [] = false
is_raised e (u ∷ us) =
    let rest = is_raised e us in ite (EventType-discrete (event_of u) e) true rest

has_bits_lem :
    (e : EventType) (mask : StatusMask)
    → is_publisher_event e ≡ true
    → has_bits mask (get_status_kind_from_rmw e) ≡ bit_of e mask
unfolding bit_of has_bits get_status_kind_from_rmw is_event_supported mask_map is_publisher_event
has_bits_lem e mask mine = ground arith

has_callback_unsafe_lem :
    (e : EventType) (n : Notifier)
    → is_publisher_event e ≡ true
    → has_callback_unsafe e n ≡ is_watched e n.mask
unfolding is_watched bit_of has_callback_unsafe set_bits has_bits StatusKind-discrete
    get_status_kind_from_rmw is_event_supported mask_map is_publisher_event is_kind
has_callback_unsafe_lem e n mine = ground arith

flag-handle :
    (e : EventType) (u : Update) (p : PublisherInfo) (changed : Bool)
    → flag e p ≡ some changed
    → flag e (handle u p) ≡ some (ite (EventType-discrete (event_of u) e) true changed)
unfolding flag handle event_of EventType-discrete
flag-handle e u p changed known = ground arith

is_status_changed-known :
    (w : WriterStatus) (e : EventType) (p : PublisherInfo) (watched changed : Bool)
    → has_callback_unsafe e p.notifier ≡ watched
    → flag e p ≡ some changed
    → is_status_changed w e p ≡ (
      if watched && changed then record p { notifier = set_trigger e false p.notifier } else p,
      has_bits w.changes (get_status_kind_from_rmw e) || (watched && changed),
    )
unfolding is_status_changed
is_status_changed-known w e p false changed callback known = rw (is_status_changed, callback) refl
is_status_changed-known w e p true false callback known =
    rw (is_status_changed, callback, known) refl
is_status_changed-known w e p true true callback known =
    rw (is_status_changed, callback, known) refl

mask-run_callback :
    (e : EventType) (changes : ℤ) (n : Notifier) → (run_callback e changes n).mask ≡ n.mask
unfolding run_callback
mask-run_callback e changes n = ground arith

mask-handle : (u : Update) (p : PublisherInfo) → (handle u p).notifier.mask ≡ p.notifier.mask
unfolding set_trigger
mask-handle u p =
    ap (λ (n : Notifier). n.mask) (notifier-handle u p)
    ∙ mask-run_callback (event_of u) (changes_of u p) p.notifier

mask-handle_all :
    (us : List Update) (p : PublisherInfo) → (handle_all us p).notifier.mask ≡ p.notifier.mask
unfolding handle_all
mask-handle_all [] p = refl
mask-handle_all (u ∷ us) p = mask-handle_all us (handle u p) ∙ mask-handle u p

raised_or :
    {P : Type 0} (d : Dec P) (rest changed : Bool)
    → (rest || ite d true changed) ≡ (ite d true rest || changed)
raised_or (yes p) true changed = refl
raised_or (yes p) false changed = refl
raised_or (no n) rest changed = refl

flag-handle_all :
    (e : EventType) (us : List Update) (p : PublisherInfo) (changed : Bool)
    → flag e p ≡ some changed
    → flag e (handle_all us p) ≡ some (is_raised e us || changed)
unfolding handle_all is_raised
flag-handle_all e [] p changed known = known
flag-handle_all e (u ∷ us) p changed known =
    flag-handle_all e us (handle u p) _ (flag-handle e u p changed known)
    ∙ ap some (raised_or (EventType-discrete (event_of u) e) (is_raised e us) changed)

-- get_status takes the flag of its event, and leaves the mask.
flag-get_status :
    (w : WriterStatus) (e : EventType) (p : PublisherInfo)
    → is_publisher_event e ≡ true
    → flag e (get_status w e p).0 ≡ some false
unfolding flag get_status take_status is_publisher_event
flag-get_status w e p mine = ground arith

mask-get_status :
    (w : WriterStatus) (e : EventType) (p : PublisherInfo)
    → (get_status w e p).0.notifier.mask ≡ p.notifier.mask
unfolding get_status take_status set_trigger
mask-get_status w e p = ground arith

or_false : (a : Bool) → (a || false) ≡ a
or_false true = refl
or_false false = refl

-- Where get_status for an event of a publisher is followed by any updates, is_status_changed for the
-- event answers true exactly if the writer has the bit of the event among its changes, or one of
-- those updates was of that event and the event is watched: its bit is in the mask, or it is the
-- inconsistent topic. In the latter case it takes back the guard condition of the event; otherwise it
-- changes nothing.
pub is_status_changed-get_status :
    (w w' : WriterStatus) (e : EventType) (us : List Update) (p : PublisherInfo)
    → is_publisher_event e ≡ true
    → let q = handle_all us (get_status w' e p).0 in
      let seen = is_watched e p.notifier.mask && is_raised e us in
      is_status_changed w e q ≡ (
        if seen then record q { notifier = set_trigger e false q.notifier } else q,
        bit_of e w.changes || seen,
      )
is_status_changed-get_status w w' e us p mine =
    let after = (get_status w' e p).0 in
    let q = handle_all us after in
    let mask = mask-handle_all us after ∙ mask-get_status w' e p in
    let watched = has_callback_unsafe_lem e q.notifier mine ∙ ap (is_watched e) mask in
    let known =
      flag-handle_all e us after false (flag-get_status w' e p mine)
      ∙ ap some (or_false (is_raised e us)) in
    is_status_changed-known w e q (is_watched e p.notifier.mask) (is_raised e us) watched known
    ∙ ap
        (λ b. (
          if is_watched e p.notifier.mask && is_raised e us
              then record q { notifier = set_trigger e false q.notifier }
              else q,
          b || (is_watched e p.notifier.mask && is_raised e us),
        ))
        (has_bits_lem e w.changes mine)
