-- ===== src/Graph/Watch.antt =====
-- What the graph knows of endpoints of other processes (rmw_gurumdds_cpp/src/rmw_context_impl.cpp).
use rmw_gurumdds.Base.{
  ℕ, ◌≡◌, refl, ap, ◌∙◌, Bool, true, false, not, ◌||◌, ◌&&◌, List, take, none, some,
}
use rmw_gurumdds.Event.Converter.{RmwRet}
use rmw_gurumdds.Qos.{TimeLib}
use rmw_gurumdds.Rpc.Samples.{same_bytes}
use rmw_gurumdds.Graph.{Policies, Endpoint, CommonContext}
use rmw_gurumdds.Graph.Local.{remove_entity, add_entity}
use rmw_gurumdds.Graph.Remote.{
  BuiltinEndpoint, guid_to_gid, add_remote_entity, remove_remote_entity, on_publication_changed,
  on_subscription_changed,
}
use rmw_gurumdds.Graph.Laws.{same_entity, IsGraph}
use rmw_gurumdds.Graph.Rollback.{Adds, adds, refuses, add_entity-Adds}

pub drop_same : (same old : Bool) → (not same && (same || old)) ≡ (not same && old)
drop_same true old = refl
drop_same false old = refl

module _ {S Info : Type 0} (common : CommonContext S Info) (has : S → List ℕ → Bool → Bool)
    (laws : IsGraph common has) (t : TimeLib) (depth_default : ℕ) (pad no_hash : List ℕ) where
  -- An endpoint of another process: neither its participant nor the prefix of its guid is this one's.
  pub record IsRemote (e : BuiltinEndpoint) : Type 0 where
    pub participant : same_bytes (guid_to_gid pad e.participant_guid) common.gid ≡ false
    pub prefix_ : same_bytes (take 12 (guid_to_gid pad e.guid)) (take 12 common.gid) ≡ false

  after_removal :
      (gid : List ℕ) (s : S) (step : S × RmwRet)
      → Adds common has laws t depth_default gid false s step
      → (g : List ℕ) (r : Bool)
      → has (remove_entity common gid false step.0).0 g r
        ≡ (not (same_entity gid false g r) && has s g r)
  unfolding remove_entity
  after_removal gid s step (adds {s' = s'} h) g r =
      laws.removed gid false s' g r
      ∙ ap (λ b. not (same_entity gid false g r) && b) (h g r)
      ∙ drop_same (same_entity gid false g r) (has s g r)
  after_removal gid s step (refuses {s' = s'} h) g r =
      laws.removed gid false s' g r ∙ ap (λ b. not (same_entity gid false g r) && b) (h g r)

  -- If the graph keeps its promises: a writer of another process that appears and disappears again
  -- is not in the graph, and all other entities are as they were; but where a reader of another
  -- process disappears, the graph has every reader that it had before, that one included.
  pub endpoints_gone :
      (e : BuiltinEndpoint) (s : S)
      → IsRemote e
      → ((g : List ℕ) (r : Bool)
          → has
              (on_publication_changed common pad t depth_default no_hash e true
                (on_publication_changed common pad t depth_default no_hash e false s))
              g
              r
            ≡ (not (same_entity (guid_to_gid pad e.guid) false g r) && has s g r))
        × ((g : List ℕ)
            → has (on_subscription_changed common pad t depth_default no_hash e true s) g true
              ≡ has s g true)
  unfolding on_publication_changed on_subscription_changed add_remote_entity remove_remote_entity
      remove_entity
  endpoints_gone e s remote =
      let gid = guid_to_gid pad e.guid in
      let dp_gid = guid_to_gid pad e.participant_guid in
      let endpoint : Endpoint = record {
        topic_name = e.topic_name;
        type_name = e.type_name;
        type_hash = elim e.type_hash [ none ↦ no_hash | some h ↦ h ];
      } in
      let policies : Policies = record (e.policies) { history = none } in
      let step = add_entity common t depth_default gid dp_gid endpoint policies false s in
      (
        λ g r.
            rw (remote.participant, remote.prefix_)
              (after_removal gid s step
                (add_entity-Adds common has laws t depth_default gid dp_gid endpoint policies false
                  s)
                g r),
        λ g. rw remote.prefix_ (laws.removed gid false s g true),
      )
