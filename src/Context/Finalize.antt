-- ===== src/Context/Finalize.antt =====
-- `finalize_participant` (rmw_gurumdds_cpp/src/rmw_context_impl.cpp) and `finalize`
-- (rmw_gurumdds_cpp/src/graph_cache.cpp).
use rmw_gurumdds.Base.{ℕ, Bool, true, false, if◌then◌else◌, ◌&&◌, Option, none, some}
use rmw_gurumdds.Event.Converter.{RmwRet, ret_ok, ret_error}
use rmw_gurumdds.Context.{Context, and_then}

-- Whether the calls that delete succeed, in their order. `delete_publisher` stands for deleting the
-- contained entities and then the publisher, which both have to succeed; so does
-- `delete_subscriber`. `factory` tells whether there is a factory.
pub record Deletion : Type 0 where
  pub stop_listener_thread : Bool
  pub destroy_guard_condition : Bool
  pub destroy_subscription : Bool
  pub destroy_publisher : Bool
  pub delete_publisher : Bool
  pub delete_subscriber : Bool
  pub factory : Bool
  pub delete_participant : Bool

-- A pointer that is not null is deleted and set to null; if that fails, it stays.
abbrev pub release : Bool → Option ℕ → Option ℕ × RmwRet
release done none = (none, ret_ok)
release true (some p) = (none, ret_ok)
release false (some p) = (some p, ret_error)

unfoldable pub release_guard_condition : Bool → Context → Context × RmwRet
release_guard_condition done c =
    let (p, ret) = release done c.graph_guard_condition in
    (record c { graph_guard_condition = p }, ret)

unfoldable pub release_discovery_sub : Bool → Context → Context × RmwRet
release_discovery_sub done c =
    let (p, ret) = release done c.discovery_sub in (record c { discovery_sub = p }, ret)

unfoldable pub release_discovery_pub : Bool → Context → Context × RmwRet
release_discovery_pub done c =
    let (p, ret) = release done c.discovery_pub in (record c { discovery_pub = p }, ret)

unfoldable pub release_publisher : Bool → Context → Context × RmwRet
release_publisher done c =
    let (p, ret) = release done c.publisher in (record c { publisher = p }, ret)

unfoldable pub release_subscriber : Bool → Context → Context × RmwRet
release_subscriber done c =
    let (p, ret) = release done c.subscriber in (record c { subscriber = p }, ret)

unfoldable pub release_participant : Bool → Context → Context × RmwRet
release_participant done c =
    let (p, ret) = release done c.participant in (record c { participant = p }, ret)

-- `graph_cache::finalize`
unfoldable pub finalize_graph : Deletion → Context → Context × RmwRet
unfolding release_guard_condition release_discovery_sub release_discovery_pub
finalize_graph d c =
    if d.stop_listener_thread
    then and_then
        (release_guard_condition d.destroy_guard_condition
          (record c { on_change_callback = false }))
        (λ c.
          and_then (release_discovery_sub d.destroy_subscription c)
            (λ c. release_discovery_pub d.destroy_publisher c))
    else (c, ret_error)

unfoldable pub finalize_participant : Deletion → Context → Context × RmwRet
unfolding finalize_graph release_publisher release_subscriber release_participant
finalize_participant d c = and_then (finalize_graph d c) (λ c.
    and_then (release_publisher d.delete_publisher c) (λ c.
      and_then (release_subscriber d.delete_subscriber c)
        (λ c. release_participant (d.factory && d.delete_participant) c)))
