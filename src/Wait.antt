-- ===== src/Wait.antt =====
-- Wait sets (rmw_gurumdds_cpp/src/wait.cpp, rmw_gurumdds_cpp/include/rmw_gurumdds_cpp/wait.hpp). A
-- pointer is a number, and 0 is the null pointer. What an array of `rmw` points to is read through
-- the functions of `Pointers`.
pub mod Attach
pub mod Poll
pub mod Active
pub mod Run
pub mod Reattach
pub mod Exact
pub mod Marks
pub mod Answers
pub mod Polling
pub mod Tests
use rmw_gurumdds.Base.{ℕ, Bool, List, Option}
use rmw_gurumdds.Event.Converter.{EventType}

-- The virtual functions of `EventInfo` that waiting calls.
pub record EventInfo : Type 0 where
  pub has_callback : EventType → Bool
  pub get_guard_condition : EventType → ℕ
  pub get_status_condition : ℕ
  pub is_status_changed : EventType → Bool

-- `rmw_event_t`
pub record RmwEvent : Type 0 where
  pub event_type : EventType
  pub data_ : Option EventInfo

-- `read_condition` of a `SubscriberInfo`, a `ServiceInfo` and a `ClientInfo`, and the event, at an
-- address.
pub record Pointers : Type 0 where
  pub subscriber_condition : ℕ → ℕ
  pub service_condition : ℕ → ℕ
  pub client_condition : ℕ → ℕ
  pub event_at : ℕ → RmwEvent

-- The operations of `dds_WaitSet`: `get_conditions` gives none where DDS reports an error.
pub record DdsWaitSet (S : Type 0) : Type 0 where
  pub attach_condition : ℕ → S → S
  pub detach_condition : ℕ → S → S
  pub get_conditions : S → Option (List ℕ)

-- `WaitSetInfo`; `attached_conditions` is filled and emptied by each use and is left out.
pub record WaitSetInfo (S : Type 0) : Type 0 where
  pub wait_set : S
  pub active_conditions : List ℕ
  pub cached_subscriptions : List ℕ
  pub cached_guard_conditions : List ℕ
  pub cached_service_conditions : List ℕ
  pub cached_client_conditions : List ℕ
  pub cached_event_conditions : List ℕ
  pub cached_status_conditions : List ℕ

-- The five arrays that the caller passes, each of which may be null.
pub record Arrays : Type 0 where
  pub subscriptions : Option (List ℕ)
  pub guard_conditions : Option (List ℕ)
  pub services : Option (List ℕ)
  pub clients : Option (List ℕ)
  pub events : Option (List ℕ)
