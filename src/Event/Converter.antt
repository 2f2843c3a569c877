-- ===== src/Event/Converter.antt =====
-- Event types, status kinds and return codes (rmw_gurumdds_cpp/src/event_converter.cpp).
use rmw_gurumdds.Base.{Bool, true, false, ◌||◌, ◌&&◌, not, if◌then◌else◌, Option, none, some}
use mathlib.Core.Logic.{ite}

-- `rmw_event_type_t`; `invalid` is RMW_EVENT_INVALID, one past the last event.
pub data EventType : Type 0 where
  liveliness_changed requested_deadline_missed requested_qos_incompatible message_lost : EventType
  subscription_incompatible_type subscription_matched liveliness_lost : EventType
  offered_deadline_missed offered_qos_incompatible publisher_incompatible_type : EventType
  publication_matched invalid : EventType

-- The bits of a `dds_StatusMask` that events use; in DDS each kind is a bit of its own.
pub data StatusKind : Type 0 where
  liveliness_changed_status requested_deadline_missed_status : StatusKind
  requested_incompatible_qos_status sample_lost_status inconsistent_topic_status : StatusKind
  subscription_matched_status liveliness_lost_status offered_deadline_missed_status : StatusKind
  offered_incompatible_qos_status publication_matched_status : StatusKind

-- The values of `rmw_ret_t` that the code returns.
pub data RmwRet : Type 0 where
  ret_ok ret_error ret_timeout ret_unsupported : RmwRet
  ret_invalid_argument ret_incorrect_rmw_implementation ret_bad_alloc : RmwRet

pub data DdsRet : Type 0 where
  dds_ok dds_error dds_timeout dds_other : DdsRet

unfoldable pub EventType-discrete : Discrete EventType
EventType-discrete = hlevel

unfoldable pub StatusKind-discrete : Discrete StatusKind
StatusKind-discrete = hlevel

-- `event_t < RMW_EVENT_INVALID`
unfoldable pub is_event_supported : EventType → Bool
is_event_supported invalid = false
is_event_supported _ = true

-- `g_mask_map`
unfoldable pub mask_map : EventType → Option StatusKind
mask_map liveliness_changed = some liveliness_changed_status
mask_map requested_deadline_missed = some requested_deadline_missed_status
mask_map requested_qos_incompatible = some requested_incompatible_qos_status
mask_map message_lost = some sample_lost_status
mask_map subscription_incompatible_type = some inconsistent_topic_status
mask_map subscription_matched = some subscription_matched_status
mask_map liveliness_lost = some liveliness_lost_status
mask_map offered_deadline_missed = some offered_deadline_missed_status
mask_map offered_qos_incompatible = some offered_incompatible_qos_status
mask_map publisher_incompatible_type = some inconsistent_topic_status
mask_map publication_matched = some publication_matched_status
mask_map invalid = none

-- `none` is the empty mask 0.
unfoldable pub get_status_kind_from_rmw : EventType → Option StatusKind
unfolding is_event_supported mask_map
get_status_kind_from_rmw event_t =
    if not (is_event_supported event_t) then none else mask_map event_t

unfoldable pub check_dds_ret_code : DdsRet → RmwRet
check_dds_ret_code dds_ok = ret_ok
check_dds_ret_code dds_error = ret_error
check_dds_ret_code dds_timeout = ret_timeout
check_dds_ret_code dds_other = ret_error

-- A `dds_StatusMask`: which bits are set.
abbrev pub StatusMask : Type 0
StatusMask = StatusKind → Bool

-- `kind == bit`, for a kind that may be 0.
unfoldable pub is_kind : Option StatusKind → StatusKind → Bool
unfolding StatusKind-discrete
is_kind none bit = false
is_kind (some kind) bit = ite (StatusKind-discrete kind bit) true false

-- `mask |= kind`, `mask &= ~kind` and `(mask & kind) > 0`
unfoldable pub set_bits : Option StatusKind → StatusMask → StatusMask
unfolding is_kind
set_bits kind mask bit = mask bit || is_kind kind bit

unfoldable pub clear_bits : Option StatusKind → StatusMask → StatusMask
unfolding is_kind
clear_bits kind mask bit = mask bit && not (is_kind kind bit)

unfoldable pub has_bits : StatusMask → Option StatusKind → Bool
has_bits mask none = false
has_bits mask (some kind) = mask kind
