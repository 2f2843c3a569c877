-- ===== src/Event/Subscriber/Losses.antt =====
-- Lost messages of a `SubscriberInfo`: `on_sample_lost`, `get_status` and `is_status_changed` in
-- rmw_gurumdds_cpp/src/event_info_common.cpp.
use rmw_gurumdds.Base.{◌≡◌, refl, ap, sym, ◌∙◌, arith, true, false, List, [], ◌∷◌, some}
use rmw_gurumdds.Base.Int.{ℤ, pos, ◌+ℤ◌, +ℤ_assoc, +ℤ-zero}
use rmw_gurumdds.Event.Converter.{
  message_lost, ret_ok, inconsistent_topic_status, set_bits, has_bits, get_status_kind_from_rmw,
}
use rmw_gurumdds.Event.Notifier.{
  Notifier, CountStatus, counted, current, add_count, run_callback, set_trigger,
  has_callback_unsafe,
}
use rmw_gurumdds.Event.Subscriber.{SubscriberInfo, ReaderStatus, on_sample_lost}
use rmw_gurumdds.Event.Subscriber.Status.{take_status, get_status, flag, is_status_changed}

unfoldable pub lose_all : List CountStatus → SubscriberInfo → SubscriberInfo
unfolding on_sample_lost
lose_all [] p = p
lose_all (st ∷ sts) p = lose_all sts (on_sample_lost st p)

unfoldable pub sum_of_changes : List CountStatus → ℤ
sum_of_changes [] = pos 0
sum_of_changes (st ∷ sts) = st.total_count_change +ℤ sum_of_changes sts

unfoldable pub last_total : ℤ → List CountStatus → ℤ
last_total v [] = v
last_total v (st ∷ sts) = last_total st.total_count sts

-- The status that the losses leave, told from the losses alone.
unfoldable pub lost_after : List CountStatus → CountStatus → CountStatus
unfolding sum_of_changes last_total
lost_after sts st = record {
  total_count = last_total st.total_count sts;
  total_count_change = st.total_count_change +ℤ sum_of_changes sts;
}

change_lost :
    (st : CountStatus) {a b : ℤ}
    → a ≡ b
    → ◌≡◌ {A = CountStatus}
        (record st { total_count_change = a })
        (record st { total_count_change = b })
change_lost st p = ap (λ a. record st { total_count_change = a }) p

sample_lost-lose_all :
    (sts : List CountStatus) (p : SubscriberInfo)
    → (lose_all sts p).sample_lost ≡ lost_after sts p.sample_lost
unfolding lose_all lost_after sum_of_changes last_total
sample_lost-lose_all [] p = sym (change_lost p.sample_lost (+ℤ-zero _))
sample_lost-lose_all (st ∷ sts) p =
    sample_lost-lose_all sts (on_sample_lost st p)
    ∙ change_lost (lost_after (st ∷ sts) p.sample_lost) (+ℤ_assoc _ _ _)

flag-lose_all :
    (sts : List CountStatus) (p : SubscriberInfo)
    → p.sample_lost_changed ≡ true
    → (lose_all sts p).sample_lost_changed ≡ true
unfolding lose_all
flag-lose_all [] p h = h
flag-lose_all (st ∷ sts) p h = flag-lose_all sts (on_sample_lost st p) refl

flag-losses :
    (st : CountStatus) (sts : List CountStatus) (p : SubscriberInfo)
    → (lose_all (st ∷ sts) p).sample_lost_changed ≡ true
unfolding lose_all
flag-losses st sts p = flag-lose_all sts (on_sample_lost st p) refl

-- After one or more losses, get_status for lost messages succeeds, whatever the reader would
-- report: it reports the last total and the changes of all the losses on top of the stored one.
-- The stored change is then 0 and the flag is clear.
pub get_status-lost :
    (w : ReaderStatus) (st : CountStatus) (sts : List CountStatus) (p : SubscriberInfo)
    → let out = get_status w message_lost (lose_all (st ∷ sts) p) in
      (out.1 ≡ ret_ok)
      × (out.2 ≡ some (counted (lost_after (st ∷ sts) p.sample_lost)))
      × (out.0.sample_lost.total_count_change ≡ pos 0)
      × (out.0.sample_lost_changed ≡ false)
unfolding get_status take_status
get_status-lost w st sts p =
    let p' : SubscriberInfo = lose_all (st ∷ sts) p in
    (
      refl,
      ap (λ changed. some (counted (current changed p'.sample_lost w.sample_lost)))
            (flag-losses st sts p)
          ∙ ap (λ l. some (counted l)) (sample_lost-lose_all (st ∷ sts) p),
      refl,
      refl,
    )

mask-run_callback :
    (changes : ℤ) (n : Notifier) → (run_callback message_lost changes n).mask ≡ n.mask
unfolding run_callback
mask-run_callback changes n = ground arith

mask-lose_all :
    (sts : List CountStatus) (p : SubscriberInfo) → (lose_all sts p).notifier.mask ≡ p.notifier.mask
unfolding lose_all on_sample_lost set_trigger
mask-lose_all [] p = refl
mask-lose_all (st ∷ sts) p =
    mask-lose_all sts (on_sample_lost st p)
    ∙ mask-run_callback
        (add_count st.total_count st.total_count_change p.sample_lost).total_count_change p.notifier

unseen :
    (w : ReaderStatus) (p : SubscriberInfo)
    → has_callback_unsafe message_lost p.notifier ≡ true
    → is_status_changed w message_lost p ≡ (p, false)
unfolding is_status_changed flag
unseen w p has = rw (has, is_status_changed) refl

-- If the event of lost messages has a callback, then after one or more losses the flag is set, and
-- yet is_status_changed returns false, whatever changes the reader reports, and leaves the state
-- alone.
pub is_status_changed-lost :
    (w : ReaderStatus) (st : CountStatus) (sts : List CountStatus) (p : SubscriberInfo)
    → has_callback_unsafe message_lost p.notifier ≡ true
    → let p' = lose_all (st ∷ sts) p in
      (p'.sample_lost_changed ≡ true) × (is_status_changed w message_lost p' ≡ (p', false))
unfolding has_callback_unsafe
is_status_changed-lost w st sts p has = (
  flag-losses st sts p,
  unseen w (lose_all (st ∷ sts) p) (
      ap
        (λ m.
          has_bits (set_bits (some inconsistent_topic_status) m)
            (get_status_kind_from_rmw message_lost))
        (mask-lose_all (st ∷ sts) p)
      ∙ has),
)
