-- ===== src/Event/Topic/Reach.antt =====
-- What the listeners of topics reach: rmw_gurumdds_cpp/src/event_info_common.cpp, class
-- TopicEventListener.
use rmw_gurumdds.Base.{
  ℕ, ◌≡◌, sym, ap, ◌∙◌, ◌==◌, refl, arith, Bool, true, false, not, List, [], Option, none, some,
}
use mathlib.Core.Path.{subst}
use rmw_gurumdds.Event.Topic.{
  TopicTable, put, mem, associate_listener, disassociate_listener, change_events, add_event,
  remove_event, update_events, on_inconsistent_topic,
}

-- `new` does not give the address of a listener that is not deleted; that of one that is, it may.
abbrev pub is_new : Option ℕ → TopicTable → Bool
is_new none t = true
is_new (some event_listener) t = elim (t.listeners event_listener) [
  | none ↦ true
  | some events ↦ false
]

-- One call for some topic.
pub data Step (t : TopicTable) : TopicTable → Type 0 where
  associated :
      (allocated : Option ℕ) (topic : ℕ)
      → is_new allocated t ≡ true
      → Step t (associate_listener allocated topic t).0
  disassociated : (topic : ℕ) → Step t (disassociate_listener topic t).0
  event_added : (topic event_info : ℕ) → Step t (add_event topic event_info t)
  event_removed : (topic event_info : ℕ) → Step t (remove_event topic event_info t)

abbrev pub no_topics : TopicTable
no_topics = record { listeners = λ a. none; table = λ x. none; context = λ x. none }

-- What calls reach from a table without topics.
pub data Reachable : TopicTable → Type 0 where
  start : Reachable no_topics
  next : {t u : TopicTable} → Reachable t → Step t u → Reachable u

-- The call does not disassociate the topic.
unfoldable pub spares : {t u : TopicTable} → ℕ → Step t u → Bool
spares topic (associated allocated topic' new) = true
spares topic (disassociated topic') = not (topic' == topic)
spares topic (event_added topic' e) = true
spares topic (event_removed topic' e) = true

-- What calls that do not disassociate the topic make of a table.
pub data Since (topic : ℕ) (t : TopicTable) : TopicTable → Type 0 where
  at_once : Since topic t t
  later :
      {u v : TopicTable}
      → Since topic t u
      → (step : Step u v) → spares topic step ≡ true
      → Since topic t v

-- The context of a topic is its listener in the table; each topic has a listener of its own, which
-- is not deleted and has no event.
record IsSound (t : TopicTable) : Type 0 where
  same : (x : ℕ) → t.context x ≡ t.table x
  alive : (x l : ℕ) → t.table x ≡ some l → t.listeners l ≡ some []
  unique : (x y l : ℕ) → t.table x ≡ some l → t.table y ≡ some l → x ≡ y

associate-IsSound :
    (allocated : Option ℕ) (topic : ℕ) (t : TopicTable)
    → is_new allocated t ≡ true
    → IsSound t
    → IsSound (associate_listener allocated topic t).0
unfolding associate_listener put
associate-IsSound none topic t new h = h
associate-IsSound (some a) topic t new h = record {
  same = λ x. ground (arith, h.same x);
  alive = λ x l there. ground (arith, h.alive x l);
  unique = λ x y l at_x at_y. ground (arith, h.unique x y l, h.alive x l, h.alive y l);
}

disassociate-IsSound :
    (topic : ℕ) (t : TopicTable) → IsSound t → IsSound (disassociate_listener topic t).0
unfolding disassociate_listener put
disassociate-IsSound topic t h = record {
  same = λ x. ground (arith, h.same x);
  alive = λ x l there. ground (arith, h.alive x l, h.unique x topic l);
  unique = λ x y l at_x at_y. ground (arith, h.unique x y l);
}

-- Adding an event and removing one change nothing: no list has the event.
change_events-same :
    (change : List ℕ → List ℕ) (topic e : ℕ) (t : TopicTable) (listener : Option ℕ)
    → IsSound t
    → t.table topic ≡ listener
    → change_events change topic e t ≡ t
unfolding change_events mem
change_events-same change topic e t none h at_ = rw (change_events, at_) refl
change_events-same change topic e t (some l) h at_ =
    rw (change_events, at_, h.alive topic l at_) refl

add_event-same : (topic e : ℕ) (t : TopicTable) → IsSound t → add_event topic e t ≡ t
unfolding add_event
add_event-same topic e t h = change_events-same _ topic e t (t.table topic) h refl

remove_event-same : (topic e : ℕ) (t : TopicTable) → IsSound t → remove_event topic e t ≡ t
unfolding remove_event
remove_event-same topic e t h = change_events-same _ topic e t (t.table topic) h refl

Step-IsSound : {t u : TopicTable} → Step t u → IsSound t → IsSound u
Step-IsSound {t} (associated allocated topic new) h = associate-IsSound allocated topic t new h
Step-IsSound {t} (disassociated topic) h = disassociate-IsSound topic t h
Step-IsSound {t} (event_added topic e) h = subst IsSound (sym (add_event-same topic e t h)) h
Step-IsSound {t} (event_removed topic e) h = subst IsSound (sym (remove_event-same topic e t h)) h

Reachable-IsSound : {t : TopicTable} → Reachable t → IsSound t
Reachable-IsSound start = record {
  same = λ x. refl;
  alive = λ x l there. absurd (cc);
  unique = λ x y l at_x at_y. absurd (cc);
}
Reachable-IsSound (next run step) = Step-IsSound step (Reachable-IsSound run)

-- A topic keeps its listener until it is disassociated.
associate_keeps :
    (allocated : Option ℕ) (topic' topic l : ℕ) (t : TopicTable)
    → t.table topic ≡ some l
    → (associate_listener allocated topic' t).0.table topic ≡ some l
unfolding associate_listener put
associate_keeps none topic' topic l t there = there
associate_keeps (some a) topic' topic l t there = ground arith

disassociate_keeps :
    (topic' topic l : ℕ) (t : TopicTable)
    → not (topic' == topic) ≡ true
    → t.table topic ≡ some l
    → (disassociate_listener topic' t).0.table topic ≡ some l
unfolding disassociate_listener put
disassociate_keeps topic' topic l t other there = ground arith

Step-keeps :
    {t u : TopicTable} (topic l : ℕ) (step : Step t u)
    → IsSound t
    → spares topic step ≡ true
    → t.table topic ≡ some l
    → u.table topic ≡ some l
unfolding spares
Step-keeps {t} topic l (associated allocated topic' new) h other there =
    associate_keeps allocated topic' topic l t there
Step-keeps {t} topic l (disassociated topic') h other there =
    disassociate_keeps topic' topic l t other there
Step-keeps {t} topic l (event_added topic' e) h other there =
    ap (λ (u : TopicTable). u.table topic) (add_event-same topic' e t h) ∙ there
Step-keeps {t} topic l (event_removed topic' e) h other there =
    ap (λ (u : TopicTable). u.table topic) (remove_event-same topic' e t h) ∙ there

Since-IsSound : (topic : ℕ) {t u : TopicTable} → Since topic t u → IsSound t → IsSound u
Since-IsSound topic at_once h = h
Since-IsSound topic (later run step other) h = Step-IsSound step (Since-IsSound topic run h)

Since-keeps :
    (topic l : ℕ) {t u : TopicTable}
    → Since topic t u
    → IsSound t
    → t.table topic ≡ some l
    → u.table topic ≡ some l
Since-keeps topic l at_once h there = there
Since-keeps topic l (later run step other) h there =
    Step-keeps topic l step (Since-IsSound topic run h) other (Since-keeps topic l run h there)

-- The callback, by the listener that it has read.
called :
    (topic : ℕ) (t u : TopicTable) (listener : Option ℕ)
    → t.context topic ≡ listener
    → on_inconsistent_topic topic t u
      ≡ elim listener [ none ↦ some [] | some l ↦ update_events l u ]
unfolding on_inconsistent_topic
called topic t u listener e = rw (on_inconsistent_topic, e) refl

deleted :
    (topic l : ℕ) (t : TopicTable)
    → t.table topic ≡ some l
    → update_events l (disassociate_listener topic t).0 ≡ none
unfolding update_events disassociate_listener put
deleted topic l t there = ground arith

reach_at :
    {t u : TopicTable} (topic : ℕ) (listener : Option ℕ)
    → IsSound t
    → Since topic t u
    → t.table topic ≡ listener
    → (on_inconsistent_topic topic t u ≡ some [])
      × (on_inconsistent_topic topic t (disassociate_listener topic u).0
          ≡ elim listener [ none ↦ some [] | some l ↦ none ])
unfolding update_events
reach_at {t} {u} topic none h run there =
    let read = h.same topic ∙ there in
    (called topic t u none read, called topic t (disassociate_listener topic u).0 none read)
reach_at {t} {u} topic (some l) h run there =
    let read = h.same topic ∙ there in
    let kept = Since-keeps topic l run h there in
    (
      called topic t u (some l) read ∙ (Since-IsSound topic run h).alive topic l kept,
      called topic t (disassociate_listener topic u).0 (some l) read ∙ deleted topic l u kept,
    )

-- Let on_inconsistent_topic read the context of its topic in a table that calls reach from one without
-- topics, where `new` gives no address in use. If it gets the listener's mutex after any further calls
-- that do not disassociate the topic, then it meets no deleted listener, and it updates no event, also
-- not one that was added for the topic. If the topic is then disassociated before it gets the mutex,
-- it uses a deleted listener, exactly where the topic had a listener when it read the context.
pub on_inconsistent_topic-reachable :
    {t u : TopicTable} (topic : ℕ)
    → Reachable t
    → Since topic t u
    → (on_inconsistent_topic topic t u ≡ some [])
      × (on_inconsistent_topic topic t (disassociate_listener topic u).0
          ≡ elim (t.table topic) [ none ↦ some [] | some listener ↦ none ])
on_inconsistent_topic-reachable {t} topic reach run =
    reach_at topic (t.table topic) (Reachable-IsSound reach) run refl
