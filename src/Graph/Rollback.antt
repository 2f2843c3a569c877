-- ===== src/Graph/Rollback.antt =====
-- What registering an endpoint leaves in the graph (rmw_gurumdds_cpp/src/graph_cache.cpp).
use rmw_gurumdds.Base.{
  ℕ, ◌≡◌, refl, sym, ap, ◌∙◌, Bool, true, false, not, ◌||◌, ◌&&◌, inl, inr, Bool-cases, List,
  Option, none, some,
}
use mathlib.Core.Bool.{false≢true}
use rmw_gurumdds.Event.Converter.{RmwRet, ret_ok, ret_error}
use rmw_gurumdds.Qos.{TimeLib}
use rmw_gurumdds.Rpc.Samples.{same_bytes_self, same_bytes_eq}
use rmw_gurumdds.Graph.{Policies, Endpoint, Node, CommonContext}
use rmw_gurumdds.Graph.Local.{
  LocalEndpoint, is_ok, profile_of, remove_entity, add_entity, add_local_publisher,
  add_local_subscriber, publisher_added, on_publisher_created, register_pair, entities_reset,
  on_service_created,
}
use rmw_gurumdds.Graph.Laws.{same_entity, IsGraph}

-- Adding and then removing an entity that was not there.
add_remove : (same old : Bool) → (same ≡ true → old ≡ false) → (not same && (same || old)) ≡ old
add_remove true old new = sym (new refl)
add_remove false old new = refl

or_true : (a : Bool) → (a || true) ≡ true
or_true true = refl
or_true false = refl

same_entity_self : (g : List ℕ) (r : Bool) → same_entity g r g r ≡ true
same_entity_self g true = same_bytes_self g
same_entity_self g false = same_bytes_self g

module _ {S Info : Type 0} (common : CommonContext S Info) (has : S → List ℕ → Bool → Bool)
    (laws : IsGraph common has) (t : TimeLib) (depth_default : ℕ) where
  -- An entity that is not there is not there under the same gid.
  still_new :
      (s : S) (g g' : List ℕ) (r r' : Bool)
      → has s g r ≡ false
      → same_entity g r g' r' ≡ true
      → has s g' r' ≡ false
  still_new s g g' true true new same = ap (λ x. has s x true) (sym (same_bytes_eq g g' same)) ∙ new
  still_new s g g' true false new same = absurd (false≢true same)
  still_new s g g' false true new same = absurd (false≢true same)
  still_new s g g' false false new same =
      ap (λ x. has s x false) (sym (same_bytes_eq g g' same)) ∙ new

  -- A step that adds an entity: it succeeds and adds exactly that, or it fails and changes nothing.
  pub data Adds (gid : List ℕ) (is_reader : Bool) (s : S) : S × RmwRet → Type 0 where
    adds :
        {s' : S}
        → ((g : List ℕ) (r : Bool) → has s' g r ≡ (same_entity gid is_reader g r || has s g r))
        → Adds gid is_reader s (s', ret_ok)
    refuses :
        {s' : S}
        → ((g : List ℕ) (r : Bool) → has s' g r ≡ has s g r)
        → Adds gid is_reader s (s', ret_error)

  pub add_entity-Adds :
      (gid d : List ℕ) (e : Endpoint) (p : Policies) (is_reader : Bool) (s : S)
      → Adds gid is_reader s (add_entity common t depth_default gid d e p is_reader s)
  unfolding add_entity
  add_entity-Adds gid d e p is_reader s =
      let profile = profile_of t depth_default p in
      elim (Bool-cases (common.add_entity gid e d profile is_reader s).1) [
        | inl done ↦ rw done (adds (laws.added gid e d profile is_reader s done))
        | inr failed ↦ rw failed (refuses (laws.not_added gid e d profile is_reader s failed))
      ]

  publisher-Adds :
      (w : LocalEndpoint) (ps : Option Policies) (s : S)
      → w.policies ≡ ps
      → Adds w.gid false s (add_local_publisher common t depth_default w s)
  unfolding add_local_publisher
  publisher-Adds w none s e = rw (add_local_publisher, e) (refuses λ g r. refl)
  publisher-Adds w (some p) s e =
      rw (add_local_publisher, e) (add_entity-Adds w.gid common.gid w.endpoint p false s)

  subscriber-Adds :
      (w : LocalEndpoint) (ps : Option Policies) (s : S)
      → w.policies ≡ ps
      → Adds w.gid true s (add_local_subscriber common t depth_default w s)
  unfolding add_local_subscriber
  subscriber-Adds w none s e = rw (add_local_subscriber, e) (refuses λ g r. refl)
  subscriber-Adds w (some p) s e =
      rw (add_local_subscriber, e)
        (add_entity-Adds w.gid common.gid w.endpoint (record p { lifespan = none }) true s)

  -- The publisher's entity is in the graph; the rest of on_publisher_created keeps it or removes it.
  after_adding :
      (pub_ : LocalEndpoint) (n : Node) (s s' : S)
      → has s pub_.gid false ≡ false
      → ((g : List ℕ) (r : Bool) → has s' g r ≡ (same_entity pub_.gid false g r || has s g r))
      → (g : List ℕ) (r : Bool)
      → has (publisher_added common t depth_default pub_ n s' ret_ok).0 g r ≡ (
          is_ok (publisher_added common t depth_default pub_ n s' ret_ok).1
            && same_entity pub_.gid false g r
          || has s g r)
  unfolding publisher_added remove_entity
  after_adding pub_ n s s' new more g r =
      elim (Bool-cases (is_ok (common.add_publisher_graph pub_.gid n s').1)) [
        | inl kept ↦ rw kept (laws.publisher_graph pub_.gid n s' g r ∙ more g r)
        | inr dropped ↦ rw dropped (
            laws.removed pub_.gid false (common.add_publisher_graph pub_.gid n s').0 g r
            ∙ ap (λ b. not (same_entity pub_.gid false g r) && b)
                (laws.publisher_graph pub_.gid n s' g r ∙ more g r)
            ∙ add_remove (same_entity pub_.gid false g r) (has s g r)
                (still_new s pub_.gid g false r new))
      ]

  after_step :
      (pub_ : LocalEndpoint) (n : Node) (s : S) (step : S × RmwRet)
      → has s pub_.gid false ≡ false
      → Adds pub_.gid false s step
      → (g : List ℕ) (r : Bool)
      → has (publisher_added common t depth_default pub_ n step.0 step.1).0 g r ≡ (
          is_ok (publisher_added common t depth_default pub_ n step.0 step.1).1
            && same_entity pub_.gid false g r
          || has s g r)
  unfolding publisher_added
  after_step pub_ n s step new (adds {s' = s'} h) g r = after_adding pub_ n s s' new h g r
  after_step pub_ n s step new (refuses {s' = s'} h) g r = h g r

  -- If the graph keeps its promises and does not have the publisher's entity yet, then
  -- on_publisher_created either succeeds and has added exactly that entity, or fails, at whichever
  -- step, and leaves all entities as they were.
  pub on_publisher_created_lem :
      (pub_ : LocalEndpoint) (n : Node) (s : S)
      → has s pub_.gid false ≡ false
      → (g : List ℕ) (r : Bool)
      → has (on_publisher_created common t depth_default pub_ n s).0 g r ≡ (
          is_ok (on_publisher_created common t depth_default pub_ n s).1
            && same_entity pub_.gid false g r
          || has s g r)
  unfolding on_publisher_created
  on_publisher_created_lem pub_ n s new g r =
      after_step pub_ n s (add_local_publisher common t depth_default pub_ s) new
        (publisher-Adds pub_ pub_.policies s refl) g r

  -- The second and third step of a service keep every entity.
  keeps :
      (gid : List ℕ) (is_reader : Bool) (s : S) (step : S × RmwRet)
      → Adds gid is_reader s step
      → (g : List ℕ) (r : Bool) → has s g r ≡ true
      → has step.0 g r ≡ true
  keeps gid is_reader s step (adds h) g r there =
      h g r
      ∙ ap (λ b. same_entity gid is_reader g r || b) there
      ∙ or_true (same_entity gid is_reader g r)
  keeps gid is_reader s step (refuses h) g r there = h g r ∙ there

  there_now :
      (gid : List ℕ) (is_reader : Bool) (s : S) (step : S × RmwRet)
      → Adds gid is_reader s step
      → step.1 ≡ ret_ok
      → has step.0 gid is_reader ≡ true
  there_now gid is_reader s step (adds h) e =
      h gid is_reader ∙ ap (λ b. b || has s gid is_reader) (same_entity_self gid is_reader)
  there_now gid is_reader s step (refuses h) e = absurd (cc)

  -- If the graph keeps its promises and the first step of on_service_created has added the reader of
  -- requests, then the reader's entity is in the graph afterwards, also where a later step has
  -- failed and on_service_created returns an error: what it has added is not removed again.
  pub on_service_created-reader :
      (sub pub_ : LocalEndpoint) (n : Node) (s : S)
      → (add_local_subscriber common t depth_default sub s).1 ≡ ret_ok
      → has (on_service_created common t depth_default sub pub_ n s).0 sub.gid true ≡ true
  unfolding on_service_created register_pair entities_reset
  on_service_created-reader sub pub_ n s first =
      let one = add_local_subscriber common t depth_default sub s in
      let two = add_local_publisher common t depth_default pub_ one.0 in
      let three = common.add_service_graph sub.gid pub_.gid n two.0 in
      let there₁ : has one.0 sub.gid true ≡ true =
        there_now sub.gid true s one (subscriber-Adds sub sub.policies s refl) first in
      let there₂ : has two.0 sub.gid true ≡ true =
        keeps pub_.gid false one.0 two (publisher-Adds pub_ pub_.policies one.0 refl) sub.gid true
          there₁ in
      let there₃ : has three.0 sub.gid true ≡ true =
        laws.service_graph sub.gid pub_.gid n two.0 sub.gid true ∙ there₂ in
      elim (Bool-cases (is_ok two.1)) [
        | inr failed ↦ rw (register_pair, first, failed) there₂
        | inl done ↦ elim (Bool-cases (is_ok three.1)) [
          | inr failed ↦ rw (register_pair, first, done, failed) there₃
          | inl all_ ↦ rw (register_pair, first, done, all_) there₃
        ]
      ]
