-- ===== src/Event/Publisher/Callbacks.antt =====
-- The table of callbacks of a `PublisherInfo` and its mask, under `set_on_new_event_callback`,
-- `get_status`, `is_status_changed` and the updates of rmw_gurumdds_cpp/src/event_info_common.cpp.
use rmw_gurumdds.Base.{
  ◌≡◌, refl, ap, sym, ◌∙◌, ℕ, Bool, true, false, ◌&&◌, ◌||◌, not, Option, none, some,
}
use rmw_gurumdds.Base.Int.{ℤ}
use rmw_gurumdds.Event.Converter.{
  EventType, EventType-discrete, StatusMask, StatusKind, StatusKind-discrete, liveliness_lost,
  offered_deadline_missed, offered_qos_incompatible, publisher_incompatible_type,
  publication_matched, invalid, liveliness_changed, requested_deadline_missed,
  requested_qos_incompatible, message_lost, subscription_incompatible_type, subscription_matched,
  liveliness_lost_status, offered_deadline_missed_status, offered_incompatible_qos_status,
  inconsistent_topic_status, publication_matched_status, mask_map, is_event_supported,
  get_status_kind_from_rmw, is_kind, set_bits, clear_bits, has_bits,
}
use mathlib.Core.Option.{some-injective}
use mathlib.Core.Logic.{ite, apply_ite}
use mathlib.Core.Bool.{false≢true}
use rmw_gurumdds.Event.Notifier.{Notifier, update, install, uninstall}
use rmw_gurumdds.Event.Publisher.{PublisherInfo, WriterStatus, collect}

-- The events of a publisher.
unfoldable pub is_publisher_event : EventType → Bool
is_publisher_event liveliness_lost = true
is_publisher_event offered_deadline_missed = true
is_publisher_event offered_qos_incompatible = true
is_publisher_event publisher_incompatible_type = true
is_publisher_event publication_matched = true
is_publisher_event _ = false

unfoldable pub is_some {ℓ} : {A : Type ℓ} → Option A → Bool
is_some none = false
is_some (some _) = true

-- An event of a publisher has a callback exactly if the bit of its kind is in the mask, and the
-- listener of the writer was given that mask.
pub record Consistent (n : Notifier) : Type 0 where
  pub bits :
      (e : EventType)
      → is_publisher_event e ≡ true
      → is_some (n.on_new_event_cb e) ≡ has_bits n.mask (get_status_kind_from_rmw e)
  pub listens : n.listener_mask ≡ n.mask

-- The event of a publisher that a kind stands for.
event_of_kind : StatusKind → EventType
event_of_kind liveliness_lost_status = liveliness_lost
event_of_kind offered_deadline_missed_status = offered_deadline_missed
event_of_kind offered_incompatible_qos_status = offered_qos_incompatible
event_of_kind inconsistent_topic_status = publisher_incompatible_type
event_of_kind publication_matched_status = publication_matched
event_of_kind _ = invalid

-- Every event of a publisher has a kind, which tells it from the others.
kind_of :
    (e : EventType)
    → is_publisher_event e ≡ true
    → (k : StatusKind) × (get_status_kind_from_rmw e ≡ some k) × (event_of_kind k ≡ e)
unfolding is_publisher_event get_status_kind_from_rmw is_event_supported mask_map event_of_kind
kind_of liveliness_lost p = (_, refl, refl)
kind_of offered_deadline_missed p = (_, refl, refl)
kind_of offered_qos_incompatible p = (_, refl, refl)
kind_of publisher_incompatible_type p = (_, refl, refl)
kind_of publication_matched p = (_, refl, refl)
kind_of liveliness_changed p = absurd (false≢true p)
kind_of requested_deadline_missed p = absurd (false≢true p)
kind_of requested_qos_incompatible p = absurd (false≢true p)
kind_of message_lost p = absurd (false≢true p)
kind_of subscription_incompatible_type p = absurd (false≢true p)
kind_of subscription_matched p = absurd (false≢true p)
kind_of invalid p = absurd (false≢true p)

ite_iff {ℓ} :
    {P Q : Type ℓ} (d : Dec P) (d' : Dec Q)
    → (P → Q)
    → (Q → P)
    → ite d true false ≡ ite d' true false
ite_iff (yes p) (yes q) f g = refl
ite_iff (no n) (no m) f g = refl
ite_iff (yes p) (no m) f g = absurd (m (f p))
ite_iff (no n) (yes q) f g = absurd (n (g q))

or_ite {ℓ} : {P : Type ℓ} (b : Bool) (d : Dec P) → ite d true b ≡ b || ite d true false
or_ite true (yes _) = refl
or_ite true (no _) = refl
or_ite false (yes _) = refl
or_ite false (no _) = refl

and_ite {ℓ} : {P : Type ℓ} (b : Bool) (d : Dec P) → ite d false b ≡ b && not (ite d true false)
and_ite true (yes _) = refl
and_ite true (no _) = refl
and_ite false (yes _) = refl
and_ite false (no _) = refl

is_kind-kind :
    (e e' : EventType) (k : StatusKind)
    → is_publisher_event e ≡ true
    → is_publisher_event e' ≡ true
    → get_status_kind_from_rmw e' ≡ some k
    → is_kind (get_status_kind_from_rmw e) k ≡ ite (EventType-discrete e e') true false
unfolding is_kind
is_kind-kind e e' k p p' q' =
    let (j, q, back) = kind_of e p in
    let (k', r, back') = kind_of e' p' in
    ap (λ kind. is_kind kind k) q
    ∙ ite_iff (StatusKind-discrete j k) (EventType-discrete e e')
        (λ same. sym back ∙ ap event_of_kind (same ∙ some-injective _ _ (sym q' ∙ r)) ∙ back')
        (λ same. some-injective _ _ (sym q ∙ ap get_status_kind_from_rmw same ∙ q'))

-- The bit of an event of a publisher, after the bit of another was set.
bit-set_bits :
    (e e' : EventType) (mask : StatusMask)
    → is_publisher_event e ≡ true
    → is_publisher_event e' ≡ true
    → has_bits (set_bits (get_status_kind_from_rmw e) mask) (get_status_kind_from_rmw e')
      ≡ has_bits mask (get_status_kind_from_rmw e') || ite (EventType-discrete e e') true false
unfolding set_bits has_bits
bit-set_bits e e' mask p p' =
    let (k, q, _) = kind_of e' p' in
    ap (has_bits (set_bits (get_status_kind_from_rmw e) mask)) q
    ∙ ap (λ b. mask k || b) (is_kind-kind e e' k p p' q)
    ∙ ap (λ kind. has_bits mask kind || ite (EventType-discrete e e') true false) (sym q)

bit-clear_bits :
    (e e' : EventType) (mask : StatusMask)
    → is_publisher_event e ≡ true
    → is_publisher_event e' ≡ true
    → has_bits (clear_bits (get_status_kind_from_rmw e) mask) (get_status_kind_from_rmw e')
      ≡ has_bits mask (get_status_kind_from_rmw e')
        && not (ite (EventType-discrete e e') true false)
unfolding clear_bits has_bits
bit-clear_bits e e' mask p p' =
    let (k, q, _) = kind_of e' p' in
    ap (has_bits (clear_bits (get_status_kind_from_rmw e) mask)) q
    ∙ ap (λ b. mask k && not b) (is_kind-kind e e' k p p' q)
    ∙ ap (λ kind. has_bits mask kind && not (ite (EventType-discrete e e') true false)) (sym q)

is_some-update :
    (f : EventType → Option ℕ) (e e' : EventType) (cb : ℕ)
    → is_some (update f e (some cb) e') ≡ is_some (f e') || ite (EventType-discrete e e') true false
unfolding is_some update
is_some-update f e e' cb =
    apply_ite is_some (EventType-discrete e e') (some cb) (f e')
    ∙ or_ite (is_some (f e')) (EventType-discrete e e')

is_some-update-none :
    (f : EventType → Option ℕ) (e e' : EventType)
    → is_some (update f e none e')
      ≡ is_some (f e') && not (ite (EventType-discrete e e') true false)
unfolding is_some update
is_some-update-none f e e' =
    apply_ite is_some (EventType-discrete e e') none (f e')
    ∙ and_ite (is_some (f e')) (EventType-discrete e e')

pub install-Consistent :
    (e : EventType) (user_data cb : ℕ) (changes : ℤ) (n : Notifier)
    → is_publisher_event e ≡ true
    → Consistent n
    → Consistent (install e user_data cb changes n)
unfolding install
install-Consistent e user_data cb changes n p c = record {
  bits = λ e' p'.
      is_some-update n.on_new_event_cb e e' cb
      ∙ ap (λ b. b || ite (EventType-discrete e e') true false) (c.bits e' p')
      ∙ sym (bit-set_bits e e' n.mask p p');
  listens = refl;
}

pub uninstall-Consistent :
    (e : EventType) (n : Notifier)
    → is_publisher_event e ≡ true
    → Consistent n
    → Consistent (uninstall e n)
unfolding uninstall
uninstall-Consistent e n p c = record {
  bits = λ e' p'.
      is_some-update-none n.on_new_event_cb e e'
      ∙ ap (λ b. b && not (ite (EventType-discrete e e') true false)) (c.bits e' p')
      ∙ sym (bit-clear_bits e e' n.mask p p');
  listens = refl;
}

pub same-Consistent :
    {n m : Notifier}
    → m.on_new_event_cb ≡ n.on_new_event_cb
    → m.mask ≡ n.mask
    → m.listener_mask ≡ n.listener_mask
    → Consistent n
    → Consistent m
same-Consistent {n} {m} cbs mask listener c = record {
  bits = λ e p.
      ap (λ f. is_some (f e)) cbs
      ∙ c.bits e p
      ∙ sym (ap (λ k. has_bits k (get_status_kind_from_rmw e)) mask);
  listens = listener ∙ c.listens ∙ sym mask;
}

-- The switch of set_on_new_event_callback covers the events of a publisher and leaves the notifier.
pub collect-publisher :
    (w : WriterStatus) (e : EventType) (p : PublisherInfo)
    → is_publisher_event e ≡ true
    → (q : PublisherInfo) × (changes : ℤ) × (collect w e p ≡ some (q, changes))
      × (q.notifier ≡ p.notifier)
unfolding collect is_publisher_event
collect-publisher w liveliness_lost p mine = (_, _, refl, refl)
collect-publisher w offered_deadline_missed p mine = (_, _, refl, refl)
collect-publisher w offered_qos_incompatible p mine = (_, _, refl, refl)
collect-publisher w publisher_incompatible_type p mine = (_, _, refl, refl)
collect-publisher w publication_matched p mine = (_, _, refl, refl)
collect-publisher w liveliness_changed p mine = absurd (false≢true mine)
collect-publisher w requested_deadline_missed p mine = absurd (false≢true mine)
collect-publisher w requested_qos_incompatible p mine = absurd (false≢true mine)
collect-publisher w message_lost p mine = absurd (false≢true mine)
collect-publisher w subscription_incompatible_type p mine = absurd (false≢true mine)
collect-publisher w subscription_matched p mine = absurd (false≢true mine)
collect-publisher w invalid p mine = absurd (false≢true mine)
