-- ===== src/Wait/Reattach.antt =====
-- The cache of what is attached (rmw_gurumdds_cpp/src/wait.cpp).
use rmw_gurumdds.Base.{
  ℕ, ◌≡◌, refl, ◌↔◌, ap, sym, Bool, true, false, not, ◌||◌, ◌==◌, List, [], ◌∷◌, length, All,
  Option, none, some, ==_self, ==_iff, Bool-cases, inl, inr, ap₂,
}
use mathlib.Core.Bool.{false≢true}
use rmw_gurumdds.Wait.{Pointers, DdsWaitSet, WaitSetInfo, Arrays}
use rmw_gurumdds.Wait.Attach.{
  same_pointers, is_empty, entries, check_reattached, not_null, need_reattached, reattach, attach,
}

same_pointers_self : (xs : List ℕ) → same_pointers xs xs ≡ true
same_pointers_self [] = refl
same_pointers_self (x ∷ xs) = rw (==_self x) (same_pointers_self xs)

same_pointers_eq : (xs ys : List ℕ) → same_pointers xs ys ≡ true → xs ≡ ys
same_pointers_eq [] [] h = refl
same_pointers_eq [] (y ∷ ys) h = cc
same_pointers_eq (x ∷ xs) [] h = cc
same_pointers_eq (x ∷ xs) (y ∷ ys) h = elim (Bool-cases (x == y)) [
  | inl same ↦ ap₂ ◌∷◌ ((==_iff x y).0 same) (same_pointers_eq xs ys (rw same at h))
  | inr other ↦ absurd (false≢true (rw other at h))
]

not_empty_iff : (xs : List ℕ) → (not (is_empty xs) ≡ false) ↔ (xs ≡ [])
not_empty_iff [] = (λ h. refl, λ h. refl)
not_empty_iff (x ∷ xs) = (λ h. cc, λ h. cc)

some_reattached_iff :
    (cached : List ℕ) (x : ℕ) (xs : List ℕ)
    → (check_reattached cached (some (x ∷ xs)) ≡ false) ↔ (cached ≡ x ∷ xs)
unfolding check_reattached
some_reattached_iff cached x xs = (
  λ h. elim (Bool-cases (length cached == length (x ∷ xs))) [
    | inl same ↦ elim (Bool-cases (same_pointers cached (x ∷ xs))) [
      | inl equal ↦ same_pointers_eq cached (x ∷ xs) equal
      | inr other ↦ absurd (false≢true (sym (rw (same, other) at h)))
    ]
    | inr other ↦ absurd (false≢true (sym (rw other at h)))
  ],
  λ e. rw (e, ==_self (length (x ∷ xs)), same_pointers_self (x ∷ xs)) refl,
)

-- check_reattached returns false exactly if the cached pointers are the entries of the array, where
-- an array that is null has no entries.
pub check_reattached_lem :
    (cached : List ℕ) (array : Option (List ℕ))
    → (check_reattached cached array ≡ false) ↔ (cached ≡ entries array)
unfolding check_reattached
check_reattached_lem cached none = not_empty_iff cached
check_reattached_lem cached (some []) = not_empty_iff cached
check_reattached_lem cached (some (x ∷ xs)) = some_reattached_iff cached x xs

kept :
    (cached : List ℕ) (array : Option (List ℕ))
    → cached ≡ entries array
    → check_reattached cached array ≡ false
kept cached array e = (check_reattached_lem cached array).1 e

-- Entries of which none is null.
abbrev pub NoneNull : List ℕ → Type 0
NoneNull xs = All (λ x. (x == 0) ≡ false) xs

not_null_all : (xs : List ℕ) → NoneNull xs → not_null xs ≡ xs
not_null_all [] h = refl
not_null_all (x ∷ xs) h = rw h.0 (ap (λ t. x ∷ t) (not_null_all xs h.1))

or_parts : (a b : Bool) → (a || b) ≡ false → (a ≡ false) × (b ≡ false)
or_parts true b h = cc
or_parts false b h = (refl, h)

module _ {S : Type 0} (dds : DdsWaitSet S) (ps : Pointers) (arrays : Arrays) where
  -- What the caches hold after a call: the entries of the arrays.
  pub record IsCached (w : WaitSetInfo S) : Type 0 where
    pub subscriptions : w.cached_subscriptions ≡ entries arrays.subscriptions
    pub guard_conditions : w.cached_guard_conditions ≡ entries arrays.guard_conditions
    pub services : w.cached_service_conditions ≡ entries arrays.services
    pub clients : w.cached_client_conditions ≡ entries arrays.clients
    pub events : w.cached_event_conditions ≡ entries arrays.events

  not_needed : (w : WaitSetInfo S) → IsCached w → need_reattached dds ps arrays w ≡ false
  unfolding need_reattached
  not_needed w c =
      rw
        (
          kept _ _ c.subscriptions,
          kept _ _ c.guard_conditions,
          kept _ _ c.services,
          kept _ _ c.clients,
          kept _ _ c.events,
        )
        refl

  not_needed-IsCached : (w : WaitSetInfo S) → need_reattached dds ps arrays w ≡ false → IsCached w
  unfolding need_reattached
  not_needed-IsCached w h =
      let fifth = or_parts _ (check_reattached w.cached_event_conditions arrays.events) h in
      let fourth =
        or_parts _ (check_reattached w.cached_client_conditions arrays.clients) fifth.0 in
      let third =
        or_parts _ (check_reattached w.cached_service_conditions arrays.services) fourth.0 in
      let second =
        or_parts (check_reattached w.cached_subscriptions arrays.subscriptions)
          (check_reattached w.cached_guard_conditions arrays.guard_conditions) third.0 in
      record {
        subscriptions =
            (check_reattached_lem w.cached_subscriptions arrays.subscriptions).0 second.0;
        guard_conditions =
            (check_reattached_lem w.cached_guard_conditions arrays.guard_conditions).0 second.1;
        services = (check_reattached_lem w.cached_service_conditions arrays.services).0 third.1;
        clients = (check_reattached_lem w.cached_client_conditions arrays.clients).0 fourth.1;
        events = (check_reattached_lem w.cached_event_conditions arrays.events).0 fifth.1;
      }

  reattach-IsCached :
      (w : WaitSetInfo S) → NoneNull (entries arrays.events) → IsCached (reattach dds ps arrays w)
  unfolding reattach
  reattach-IsCached w h = record {
    subscriptions = refl;
    guard_conditions = refl;
    services = refl;
    clients = refl;
    events = not_null_all (entries arrays.events) h;
  }

  attach-IsCached :
      (w : WaitSetInfo S) → NoneNull (entries arrays.events) → IsCached (attach dds ps arrays w)
  unfolding attach
  attach-IsCached w h = elim (Bool-cases (need_reattached dds ps arrays w)) [
    | inl needed ↦ rw needed (reattach-IsCached w h)
    | inr idle ↦ rw idle (not_needed-IsCached w idle)
  ]

  attach_again : (w : WaitSetInfo S) → IsCached w → attach dds ps arrays w ≡ w
  unfolding attach
  attach_again w c = rw (not_needed w c) refl

  -- If no event is null, then after attaching, the caches hold the entries of the given arrays, and
  -- attaching the same arrays again changes nothing.
  pub attach-attach :
      (w : WaitSetInfo S)
      → NoneNull (entries arrays.events)
      → IsCached (attach dds ps arrays w)
        × (attach dds ps arrays (attach dds ps arrays w) ≡ attach dds ps arrays w)
  attach-attach w h = let c = attach-IsCached w h in (c, attach_again (attach dds ps arrays w) c)
