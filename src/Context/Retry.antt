-- ===== src/Context/Retry.antt =====
-- What is left of a context that is finalized (rmw_gurumdds_cpp/src/rmw_context_impl.cpp).
use rmw_gurumdds.Base.{ℕ, ◌≡◌, refl, ap, ◌∙◌, true, false, inl, inr, Bool-cases, Option, none, some}
use mathlib.Core.Bool.{false≢true}
use rmw_gurumdds.Event.Converter.{
  RmwRet, ret_ok, ret_error, ret_timeout, ret_unsupported, ret_invalid_argument,
  ret_incorrect_rmw_implementation, ret_bad_alloc,
}
use rmw_gurumdds.Graph.Local.{is_ok}
use rmw_gurumdds.Context.{Context, and_then}
use rmw_gurumdds.Context.Finalize.{
  Deletion, release, release_guard_condition, release_discovery_sub, release_discovery_pub,
  release_publisher, release_subscriber, release_participant, finalize_graph, finalize_participant,
}

-- Two steps keep a view of the context if both do.
pub and_then-keeps :
    {B : Type 0} (view : Context → B) (c : Context) (x : Context × RmwRet)
    (f : Context → Context × RmwRet)
    → view x.0 ≡ view c
    → ((c' : Context) → view (f c').0 ≡ view c')
    → view (and_then x f).0 ≡ view c
and_then-keeps view c (c', ret_ok) f first next = next c' ∙ first
and_then-keeps view c (c', ret_error) f first next = first
and_then-keeps view c (c', ret_timeout) f first next = first
and_then-keeps view c (c', ret_unsupported) f first next = first
and_then-keeps view c (c', ret_invalid_argument) f first next = first
and_then-keeps view c (c', ret_incorrect_rmw_implementation) f first next = first
and_then-keeps view c (c', ret_bad_alloc) f first next = first

-- What holds where two steps succeed.
pub and_then-after :
    (P Q : Context → Type 0) (x : Context × RmwRet) (f : Context → Context × RmwRet)
    → (is_ok x.1 ≡ true → P x.0)
    → ((c : Context) → P c → is_ok (f c).1 ≡ true → Q (f c).0)
    → is_ok (and_then x f).1 ≡ true
    → Q (and_then x f).0
and_then-after P Q (c, ret_ok) f first next done = next c (first refl) done
and_then-after P Q (c, ret_error) f first next done = absurd (false≢true done)
and_then-after P Q (c, ret_timeout) f first next done = absurd (false≢true done)
and_then-after P Q (c, ret_unsupported) f first next done = absurd (false≢true done)
and_then-after P Q (c, ret_invalid_argument) f first next done = absurd (false≢true done)
and_then-after P Q (c, ret_incorrect_rmw_implementation) f first next done =
    absurd (false≢true done)
and_then-after P Q (c, ret_bad_alloc) f first next done = absurd (false≢true done)

-- The context without the graph's callback and what finalize_participant deletes.
abbrev pub emptied : Context → Context
emptied c = record c {
  participant = none;
  publisher = none;
  subscriber = none;
  discovery_pub = none;
  discovery_sub = none;
  graph_guard_condition = none;
  on_change_callback = false;
}

-- It also leaves out whether the participant has a context.
abbrev pub bare : Context → Context
bare c = record c {
  participant = none;
  publisher = none;
  subscriber = none;
  discovery_pub = none;
  discovery_sub = none;
  graph_guard_condition = none;
  on_change_callback = false;
  entity_context = false;
}

-- Finalizing changes nothing but that, whatever fails.
pub emptied-finalize_participant :
    (d : Deletion) (c : Context) → emptied (finalize_participant d c).0 ≡ emptied c
unfolding finalize_participant finalize_graph release_guard_condition release_discovery_sub
    release_discovery_pub release_publisher release_subscriber release_participant
emptied-finalize_participant d c =
    let graph : emptied (finalize_graph d c).0 ≡ emptied c =
      elim (Bool-cases d.stop_listener_thread) [
        | inl stops ↦
            rw (finalize_graph, stops)
              (and_then-keeps emptied c
                (release_guard_condition d.destroy_guard_condition
                  (record c { on_change_callback = false }))
                _ refl
                (λ c.
                  and_then-keeps emptied c (release_discovery_sub d.destroy_subscription c) _ refl
                    (λ c. refl)))
        | inr stays ↦ rw (finalize_graph, stays) refl
      ] in
    and_then-keeps emptied c (finalize_graph d c) _ graph (λ c.
      and_then-keeps emptied c (release_publisher d.delete_publisher c) _ refl (λ c.
        and_then-keeps emptied c (release_subscriber d.delete_subscriber c) _ refl (λ c. refl)))

release-true : (p : Option ℕ) → release true p ≡ (none, ret_ok)
release-true none = refl
release-true (some p) = refl

-- All calls that delete succeed.
pub record IsDeleting (d : Deletion) : Type 0 where
  pub thread_stops : d.stop_listener_thread ≡ true
  pub guard_goes : d.destroy_guard_condition ≡ true
  pub sub_goes : d.destroy_subscription ≡ true
  pub pub_goes : d.destroy_publisher ≡ true
  pub publisher_goes : d.delete_publisher ≡ true
  pub subscriber_goes : d.delete_subscriber ≡ true
  pub has_factory : d.factory ≡ true
  pub participant_goes : d.delete_participant ≡ true

pub finalize_participant_lem :
    (d : Deletion) (c : Context) → IsDeleting d → finalize_participant d c ≡ (emptied c, ret_ok)
unfolding finalize_participant finalize_graph release_guard_condition release_discovery_sub
    release_discovery_pub release_publisher release_subscriber release_participant
finalize_participant_lem d c all_ =
    rw
      (
        all_.thread_stops,
        all_.guard_goes,
        all_.sub_goes,
        all_.pub_goes,
        all_.publisher_goes,
        all_.subscriber_goes,
        all_.has_factory,
        all_.participant_goes,
        release-true c.graph_guard_condition,
        release-true c.discovery_sub,
        release-true c.discovery_pub,
        release-true c.publisher,
        release-true c.subscriber,
        release-true c.participant,
      )
      refl

-- However far a finalize_participant has come before it failed, a further one for which all deletions
-- succeed returns RMW_RET_OK, and then all pointers are null, the graph has no callback, and the rest
-- of the context is as it was before the first.
pub finalize_participant-finalize_participant :
    (d d' : Deletion) (c : Context)
    → IsDeleting d'
    → finalize_participant d' (finalize_participant d c).0 ≡ (emptied c, ret_ok)
finalize_participant-finalize_participant d d' c all_ =
    finalize_participant_lem d' (finalize_participant d c).0 all_
    ∙ ap (λ (x : Context). (x, ret_ok)) (emptied-finalize_participant d c)
