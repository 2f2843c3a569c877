-- ===== src/Wait/Active.antt =====
-- Setting the entries to null that have not become active (rmw_gurumdds_cpp/src/wait.cpp).
use rmw_gurumdds.Base.{
  ℕ, Bool, true, false, ◌==◌, if◌then◌else◌, List, [], ◌∷◌, ◌++◌, Option, none, some,
}
use rmw_gurumdds.Event.Converter.{RmwRet, ret_ok, ret_error, DdsRet, dds_ok}
use rmw_gurumdds.Wait.{Pointers, Arrays}
use rmw_gurumdds.Wait.Attach.{contains}

-- The array as it is left, the code with which the function goes on or returns, and the guard
-- conditions whose trigger value was set to false.
pub record Marked : Type 0 where
  pub array : List ℕ
  pub ret : RmwRet
  pub resets : List ℕ

abbrev pub put : ℕ → Marked → Marked
put x m = record m { array = x ∷ m.array }

abbrev pub stop : List ℕ → Marked
stop xs = record { array = xs; ret = ret_error; resets = [] }

abbrev pub done : Marked
done = record { array = []; ret = ret_ok; resets = [] }

-- The loops over subscriptions, services and clients: `condition` is the read condition of an entry.
unfoldable pub mark_read : (ℕ → ℕ) → List ℕ → List ℕ → Marked
mark_read condition active [] = done
mark_read condition active (x ∷ xs) =
    let rest = mark_read condition active xs in
    if x == 0
    then stop (x ∷ xs)
    else if condition x == 0
    then stop (x ∷ xs)
    else if contains active (condition x)
    then put x rest
    else put 0 rest

-- `ret != dds_RETCODE_OK`
abbrev pub is_dds_ok : DdsRet → Bool
is_dds_ok dds_ok = true
is_dds_ok _ = false

-- The loop over guard conditions: those that are active are reset, by a function of DDS.
unfoldable pub mark_guards : (ℕ → DdsRet) → List ℕ → List ℕ → Marked
mark_guards reset active [] = done
mark_guards reset active (x ∷ xs) =
    let rest = mark_guards reset active xs in
    if x == 0
    then stop (x ∷ xs)
    else if contains active x
    then if is_dds_ok (reset x)
      then record { array = x ∷ rest.array; ret = rest.ret; resets = x ∷ rest.resets }
      else stop (x ∷ xs)
    else put 0 rest

unfoldable pub handle_active_event_conditions : Pointers → List ℕ → Marked
handle_active_event_conditions ps [] = done
handle_active_event_conditions ps (e ∷ es) =
    let event = ps.event_at e in
    let rest = handle_active_event_conditions ps es in
    elim event.data_ [
      | none ↦ stop (e ∷ es)
      | some info ↦ if info.is_status_changed event.event_type then put e rest else put 0 rest
    ]

pub record Outcome : Type 0 where
  pub arrays : Arrays
  pub ret : RmwRet
  pub resets : List ℕ

-- A loop over one of the arrays, which is skipped where the array is null.
abbrev pub on_array : (List ℕ → Marked) → Option (List ℕ) → (Option (List ℕ) → Arrays) → Outcome
on_array f none write = record { arrays = write none; ret = ret_ok; resets = [] }
on_array f (some xs) write =
    let m = f xs in record { arrays = write (some m.array); ret = m.ret; resets = m.resets }

abbrev pub more_resets : List ℕ → Outcome → Outcome
more_resets rs o = record o { resets = rs ++ o.resets }

-- What follows a loop, unless that has returned.
unfoldable pub go_on : RmwRet → Arrays → List ℕ → (Arrays → Outcome) → Outcome
go_on ret_ok arrays resets rest = more_resets resets (rest arrays)
go_on r arrays resets rest = record { arrays = arrays; ret = r; resets = resets }

abbrev pub and_then : Outcome → (Arrays → Outcome) → Outcome
and_then o rest = go_on o.ret o.arrays o.resets rest

module _ (ps : Pointers) (reset : ℕ → DdsRet) (active : List ℕ) where
  -- The five loops behind the wait.
  unfoldable pub mark_all : Arrays → Outcome
  unfolding mark_read mark_guards handle_active_event_conditions go_on
  mark_all a =
      and_then
        (on_array (mark_read ps.subscriber_condition active) a.subscriptions
          (λ xs. record a { subscriptions = xs }))
        λ a.
          and_then
            (on_array (mark_guards reset active) a.guard_conditions
              (λ xs. record a { guard_conditions = xs }))
            λ a.
              and_then
                (on_array (mark_read ps.service_condition active) a.services
                  (λ xs. record a { services = xs }))
                λ a.
                  and_then
                    (on_array (mark_read ps.client_condition active) a.clients
                      (λ xs. record a { clients = xs }))
                    λ a.
                      on_array (handle_active_event_conditions ps) a.events
                        (λ xs. record a { events = xs })
