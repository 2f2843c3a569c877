-- ===== src/Wait/Attach.antt =====
-- Attaching the conditions of a call to the wait set (rmw_gurumdds_cpp/src/wait.cpp).
use rmw_gurumdds.Base.{
  ℕ, Bool, true, false, not, ◌||◌, ◌&&◌, ◌==◌, if◌then◌else◌, List, [], ◌∷◌, ◌++◌, length, Option,
  none, some,
}
use rmw_gurumdds.Event.Converter.{
  EventType, StatusKind, StatusMask, RmwRet, ret_ok, ret_error, is_event_supported,
  get_status_kind_from_rmw, set_bits, liveliness_changed_status, requested_deadline_missed_status,
  requested_incompatible_qos_status, sample_lost_status, inconsistent_topic_status,
  subscription_matched_status, liveliness_lost_status, offered_deadline_missed_status,
  offered_incompatible_qos_status, publication_matched_status,
}
use rmw_gurumdds.Wait.{EventInfo, Pointers, DdsWaitSet, WaitSetInfo, Arrays}

-- `memcmp(...) == 0` on two arrays of as many pointers.
abbrev pub same_pointers : List ℕ → List ℕ → Bool
same_pointers [] [] = true
same_pointers (x ∷ xs) (y ∷ ys) = (x == y) && same_pointers xs ys
same_pointers _ _ = false

abbrev pub is_empty : List ℕ → Bool
is_empty [] = true
is_empty (x ∷ xs) = false

-- The entries of an array that may be null.
abbrev pub entries : Option (List ℕ) → List ℕ
entries none = []
entries (some xs) = xs

unfoldable pub check_reattached : List ℕ → Option (List ℕ) → Bool
check_reattached cached none = not (is_empty cached)
check_reattached cached (some []) = not (is_empty cached)
check_reattached cached (some (x ∷ xs)) =
    if not (length cached == length (x ∷ xs)) then true else not (same_pointers cached (x ∷ xs))

-- `insert` of a set of pointers; the order of the set is left open by C++, here it is the order of
-- insertion.
abbrev pub contains : List ℕ → ℕ → Bool
contains [] x = false
contains (y ∷ ys) x = (y == x) || contains ys x

unfoldable pub insert : ℕ → List ℕ → List ℕ
insert x xs = if contains xs x then xs else xs ++ x ∷ []

-- `status_map[condition] |= kind`
unfoldable pub add_mask : ℕ → Option StatusKind → List (ℕ × StatusMask) → List (ℕ × StatusMask)
add_mask c kind [] = (c, set_bits kind (λ _. false)) ∷ []
add_mask c kind ((d, mask) ∷ rest) =
    let more = add_mask c kind rest in
    if d == c then (d, set_bits kind mask) ∷ rest else (d, mask) ∷ more

-- `pair.second == 0`
abbrev pub is_zero : StatusMask → Bool
is_zero mask = not (
    mask liveliness_changed_status
    || mask requested_deadline_missed_status
    || mask requested_incompatible_qos_status
    || mask sample_lost_status
    || mask inconsistent_topic_status
    || mask subscription_matched_status
    || mask liveliness_lost_status
    || mask offered_deadline_missed_status
    || mask offered_incompatible_qos_status
    || mask publication_matched_status)

-- What `gather_event_conditions` has collected.
pub record Gathered : Type 0 where
  pub status_conditions : List ℕ
  pub status_map : List (ℕ × StatusMask)

-- The guard condition of an event with a callback.
unfoldable pub gather_guard : EventInfo → EventType → Gathered → Gathered
unfolding insert
gather_guard info event_type g = record g {
  status_conditions = insert (info.get_guard_condition event_type) g.status_conditions;
}

-- One round of the loop for an event with its info: `continue` where the type is not supported, or
-- a callback has no guard condition.
unfoldable pub gather_event : EventInfo → EventType → Gathered → Gathered
unfolding gather_guard add_mask is_event_supported
gather_event info event_type g =
    if not (is_event_supported event_type)
    then g
    else if info.has_callback event_type && info.get_guard_condition event_type == 0
    then g
    else let h = (if info.has_callback event_type then gather_guard info event_type g else g) in
      record h {
        status_map =
            add_mask info.get_status_condition (get_status_kind_from_rmw event_type) h.status_map;
      }

-- The loop over the events; an event without info ends the function.
unfoldable pub gather_loop : Pointers → List ℕ → Gathered → RmwRet × Gathered
unfolding gather_event
gather_loop ps [] g = (ret_ok, g)
gather_loop ps (e ∷ es) g =
    let event = ps.event_at e in
    elim event.data_ [
      | none ↦ (ret_error, g)
      | some info ↦ gather_loop ps es (gather_event info event.event_type g)
    ]

-- The loop over the map. `dds_StatusCondition_set_enabled_statuses` tells DDS the mask, and has no
-- effect on the state here.
unfoldable pub insert_conditions : List (ℕ × StatusMask) → List ℕ → List ℕ
unfolding insert
insert_conditions [] cs = cs
insert_conditions ((c, mask) ∷ rest) cs =
    if is_zero mask then insert_conditions rest cs else insert_conditions rest (insert c cs)

-- What follows the loop over the events, which may have ended the function.
unfoldable pub gathered : RmwRet → Gathered → RmwRet × List ℕ
unfolding insert_conditions
gathered ret_ok g = (ret_ok, insert_conditions g.status_map g.status_conditions)
gathered r g = (r, g.status_conditions)

unfoldable pub gather_event_conditions : Pointers → List ℕ → List ℕ → RmwRet × List ℕ
unfolding gather_loop gathered
gather_event_conditions ps es cs =
    let (r, g) = gather_loop ps es (record { status_conditions = cs; status_map = [] }) in
    gathered r g

module _ {S : Type 0} (dds : DdsWaitSet S) where
  unfoldable pub detach_all : List ℕ → S → S
  detach_all [] s = s
  detach_all (c ∷ cs) s = detach_all cs (dds.detach_condition c s)

  -- `get_conditions` and the loop that detaches what it gives.
  unfoldable pub detach_attached : S → S
  unfolding detach_all
  detach_attached s = elim (dds.get_conditions s) [ none ↦ s | some cs ↦ detach_all cs s ]

  -- A loop that attaches the condition of each entry that is not null.
  unfoldable pub attach_each : (ℕ → ℕ) → List ℕ → S → S
  attach_each condition [] s = s
  attach_each condition (x ∷ xs) s =
      if x == 0
      then attach_each condition xs s
      else attach_each condition xs (dds.attach_condition (condition x) s)

  unfoldable pub attach_all : List ℕ → S → S
  attach_all [] s = s
  attach_all (c ∷ cs) s = attach_all cs (dds.attach_condition c s)

-- The events that are cached: those that are not null.
abbrev pub not_null : List ℕ → List ℕ
not_null [] = []
not_null (x ∷ xs) = if x == 0 then not_null xs else x ∷ not_null xs

-- What `gather_event_conditions` leaves in the empty `cached_status_conditions`; its return code is
-- not looked at.
abbrev pub status_conditions_of : Pointers → Option (List ℕ) → List ℕ
status_conditions_of ps none = []
status_conditions_of ps (some es) = (gather_event_conditions ps es []).1

module _ {S : Type 0} (dds : DdsWaitSet S) (ps : Pointers) (arrays : Arrays) where
  -- The five calls of `check_reattached`.
  unfoldable pub need_reattached : WaitSetInfo S → Bool
  unfolding check_reattached
  need_reattached w =
      check_reattached w.cached_subscriptions arrays.subscriptions
      || check_reattached w.cached_guard_conditions arrays.guard_conditions
      || check_reattached w.cached_service_conditions arrays.services
      || check_reattached w.cached_client_conditions arrays.clients
      || check_reattached w.cached_event_conditions arrays.events

  -- The body of `if(need_reattached)`.
  unfoldable pub reattach : WaitSetInfo S → WaitSetInfo S
  unfolding detach_attached attach_each attach_all
  reattach w =
      let s = detach_attached dds w.wait_set in
      let s = attach_each dds ps.subscriber_condition (entries arrays.subscriptions) s in
      let s = attach_each dds (λ x. x) (entries arrays.guard_conditions) s in
      let s = attach_each dds ps.service_condition (entries arrays.services) s in
      let s = attach_each dds ps.client_condition (entries arrays.clients) s in
      let conditions = status_conditions_of ps arrays.events in
      let s = attach_all dds conditions s in
      record {
        wait_set = s;
        active_conditions = w.active_conditions;
        cached_subscriptions = entries arrays.subscriptions;
        cached_guard_conditions = entries arrays.guard_conditions;
        cached_service_conditions = entries arrays.services;
        cached_client_conditions = entries arrays.clients;
        cached_event_conditions = not_null (entries arrays.events);
        cached_status_conditions = conditions;
      }

  unfoldable pub attach : WaitSetInfo S → WaitSetInfo S
  unfolding need_reattached reattach
  attach w = if need_reattached w then reattach w else w
