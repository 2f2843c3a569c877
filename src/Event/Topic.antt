-- ===== src/Event/Topic.antt =====
-- `TopicEventListener` of rmw_gurumdds_cpp/src/event_info_common.cpp: the listeners of the topics and
-- the events each has to update. Topics, events and listeners are numbered by their addresses. The
-- functions that change the table hold `mutex_table_` from their first access to their last, so
-- each of them is one step. The callback `on_inconsistent_topic` is two: it reads the listener of the
-- topic without a mutex, and takes the listener's own one only then. `disassociate_listener` lets go
-- of that one before it deletes the listener: a callback that gets it in between counts as one that
-- gets it after that step, since the listener is deleted while it runs.
pub mod Reach
use rmw_gurumdds.Base.{
  ℕ, Bool, true, false, if◌then◌else◌, ◌==◌, List, [], ◌∷◌, ◌++◌, Option, none, some,
}
use rmw_gurumdds.Event.Converter.{RmwRet, ret_ok, ret_error}

-- `listeners` is the memory: the `event_list_` of each listener, none where there is none or it is
-- deleted. `table` is `table_`, and `context` the listener context that each topic of DDS has.
pub record TopicTable : Type 0 where
  pub listeners : ℕ → Option (List ℕ)
  pub table : ℕ → Option ℕ
  pub context : ℕ → Option ℕ

-- One entry changed.
unfoldable pub put {ℓ} : {A : Type ℓ} → (ℕ → A) → ℕ → A → ℕ → A
put f key v x = if x == key then v else f x

unfoldable pub mem : ℕ → List ℕ → Bool
mem x [] = false
mem x (y ∷ ys) = let rest = mem x ys in if x == y then true else rest

-- The first element that equals `x` taken out.
unfoldable pub erase : ℕ → List ℕ → List ℕ
erase x [] = []
erase x (y ∷ ys) = let rest = y ∷ erase x ys in if x == y then ys else rest

-- The first argument is what `new(std::nothrow)` gives. Where the topic has a listener, `emplace` does
-- nothing, and the new listener stays.
unfoldable pub associate_listener : Option ℕ → ℕ → TopicTable → TopicTable × RmwRet
unfolding put
associate_listener none topic t = (t, ret_error)
associate_listener (some event_listener) topic t =
    let listeners = put t.listeners event_listener (some []) in
    elim (t.table topic) [
      | some listener ↦ (record t { listeners = listeners }, ret_error)
      | none ↦ (
        record {
          listeners = listeners;
          table = put t.table topic (some event_listener);
          context = put t.context topic (some event_listener);
        },
        ret_ok,
      )
    ]

unfoldable pub disassociate_listener : ℕ → TopicTable → TopicTable × RmwRet
unfolding put
disassociate_listener topic t = elim (t.table topic) [
  | none ↦ (t, ret_error)
  | some listener ↦ (
    record {
      listeners = put t.listeners listener none;
      table = put t.table topic none;
      context = put t.context topic none;
    },
    ret_ok,
  )
]

-- What `add_event` and `remove_event` do with the list of a listener that is not deleted.
unfoldable pub change_events : (List ℕ → List ℕ) → ℕ → ℕ → TopicTable → TopicTable
unfolding put mem
change_events change topic event_info t = elim (t.table topic) [
  | none ↦ t
  | some listener ↦ elim (t.listeners listener) [
    | none ↦ t
    | some events ↦
        if mem event_info events
        then record t { listeners = put t.listeners listener (some (change events)) }
        else t
  ]
]

-- The event is added only if `std::find` has found it in the list.
unfoldable pub add_event : ℕ → ℕ → TopicTable → TopicTable
unfolding change_events
add_event topic event_info t =
    change_events (λ events. events ++ event_info ∷ []) topic event_info t

unfoldable pub remove_event : ℕ → ℕ → TopicTable → TopicTable
unfolding change_events erase
remove_event topic event_info t = change_events (erase event_info) topic event_info t

-- The method of the listener, which holds the listener's mutex: the events whose
-- `update_inconsistent_topic` is called. `none` is a use of a deleted listener.
unfoldable pub update_events : ℕ → TopicTable → Option (List ℕ)
update_events listener t = t.listeners listener

-- The static function that DDS calls: `t` is the table when it reads the context of the topic, `u`
-- the table when the method has got the listener's mutex.
unfoldable pub on_inconsistent_topic : ℕ → TopicTable → TopicTable → Option (List ℕ)
unfolding update_events
on_inconsistent_topic topic t u = elim (t.context topic) [
  | none ↦ some []
  | some listener ↦ update_events listener u
]
