-- ===== src/Wait/Exact.antt =====
-- What is attached to a wait set (rmw_gurumdds_cpp/src/wait.cpp).
use rmw_gurumdds.Base.{
  ℕ, ◌≡◌, refl, ap, sym, ◌∙◌, Bool, true, false, not, ◌||◌, ◌&&◌, ◌==◌, inl, inr, Bool-cases, List,
  [], ◌∷◌, ◌++◌, map, some,
}
use rmw_gurumdds.Wait.{Pointers, DdsWaitSet, WaitSetInfo, Arrays}
use rmw_gurumdds.Wait.Attach.{
  entries, contains, not_null, status_conditions_of, detach_all, detach_attached, attach_each,
  attach_all, reattach,
}

-- The conditions that DDS reports for a wait set.
abbrev pub attached : {S : Type 0} → DdsWaitSet S → S → List ℕ
attached dds s = entries (dds.get_conditions s)

-- What the code relies on: DDS reports the conditions, and attaching and detaching a condition
-- changes only whether that condition is reported.
pub record IsWaitSet {S : Type 0} (dds : DdsWaitSet S) : Type 0 where
  pub reported : (s : S) → dds.get_conditions s ≡ some (attached dds s)
  pub after_attach :
      (c : ℕ) (s : S) (x : ℕ)
      → contains (attached dds (dds.attach_condition c s)) x
        ≡ (c == x || contains (attached dds s) x)
  pub after_detach :
      (c : ℕ) (s : S) (x : ℕ)
      → contains (attached dds (dds.detach_condition c s)) x
        ≡ (not (c == x) && contains (attached dds s) x)

-- The conditions that a call waits for.
abbrev pub required : Pointers → Arrays → List ℕ
required ps arrays =
    status_conditions_of ps arrays.events
    ++ (map ps.client_condition (not_null (entries arrays.clients))
        ++ (map ps.service_condition (not_null (entries arrays.services))
            ++ (map (λ x. x) (not_null (entries arrays.guard_conditions))
                ++ map ps.subscriber_condition (not_null (entries arrays.subscriptions)))))

or_shift : (a b c : Bool) → (a || (b || c)) ≡ ((b || a) || c)
or_shift true true c = refl
or_shift true false c = refl
or_shift false true c = refl
or_shift false false c = refl

or_assoc : (a b c : Bool) → (a || (b || c)) ≡ ((a || b) || c)
or_assoc true b c = refl
or_assoc false b c = refl

not_first : (a b c : Bool) → (not b && (not a && c)) ≡ (not (a || b) && c)
not_first true true c = refl
not_first true false c = refl
not_first false true c = refl
not_first false false c = refl

contradiction : (a : Bool) → (not a && a) ≡ false
contradiction true = refl
contradiction false = refl

or_false : (a : Bool) → (a || false) ≡ a
or_false true = refl
or_false false = refl

contains-append :
    (xs ys : List ℕ) (x : ℕ) → contains (xs ++ ys) x ≡ (contains xs x || contains ys x)
contains-append [] ys x = refl
contains-append (y ∷ xs) ys x =
    ap (λ b. (y == x) || b) (contains-append xs ys x)
    ∙ or_assoc (y == x) (contains xs x) (contains ys x)

module _ {S : Type 0} (dds : DdsWaitSet S) (laws : IsWaitSet dds) where
  detached :
      (cs : List ℕ) (s : S) (x : ℕ)
      → contains (attached dds (detach_all dds cs s)) x
        ≡ (not (contains cs x) && contains (attached dds s) x)
  unfolding detach_all
  detached [] s x = refl
  detached (c ∷ cs) s x =
      detached cs (dds.detach_condition c s) x
      ∙ ap (λ b. not (contains cs x) && b) (laws.after_detach c s x)
      ∙ not_first (c == x) (contains cs x) (contains (attached dds s) x)

  pub none_left : (s : S) (x : ℕ) → contains (attached dds (detach_attached dds s)) x ≡ false
  unfolding detach_attached
  none_left s x =
      rw (detach_attached, laws.reported s)
        (detached (attached dds s) s x ∙ contradiction (contains (attached dds s) x))

  attached_all :
      (cs : List ℕ) (s : S) (x : ℕ)
      → contains (attached dds (attach_all dds cs s)) x
        ≡ (contains cs x || contains (attached dds s) x)
  unfolding attach_all
  attached_all [] s x = refl
  attached_all (c ∷ cs) s x =
      attached_all cs (dds.attach_condition c s) x
      ∙ ap (λ b. contains cs x || b) (laws.after_attach c s x)
      ∙ or_shift (contains cs x) (c == x) (contains (attached dds s) x)

  -- A loop over the entries attaches the conditions of those that are not null.
  attach_each-attach_all :
      (condition : ℕ → ℕ) (xs : List ℕ) (s : S)
      → attach_each dds condition xs s ≡ attach_all dds (map condition (not_null xs)) s
  unfolding attach_each attach_all
  attach_each-attach_all condition [] s = refl
  attach_each-attach_all condition (y ∷ ys) s = elim (Bool-cases (y == 0)) [
    | inl null ↦ rw null (attach_each-attach_all condition ys s)
    | inr real ↦
        rw real (attach_each-attach_all condition ys (dds.attach_condition (condition y) s))
  ]

  -- One loop on top of what is attached already.
  attached_each :
      (condition : ℕ → ℕ) (xs cs : List ℕ) (s : S) (x : ℕ)
      → contains (attached dds s) x ≡ contains cs x
      → contains (attached dds (attach_each dds condition xs s)) x
        ≡ contains (map condition (not_null xs) ++ cs) x
  attached_each condition xs cs s x e =
      let ds = map condition (not_null xs) in
      ap (λ t. contains (attached dds t) x) (attach_each-attach_all condition xs s)
      ∙ attached_all ds s x
      ∙ ap (λ b. contains ds x || b) e
      ∙ sym (contains-append ds cs x)

  -- If DDS keeps its promises for wait sets, then after attaching anew, exactly the conditions are
  -- attached that the call needs: the read conditions of the subscriptions, services and clients and
  -- the guard conditions that are not null, and the conditions gathered for the events; nothing
  -- is left of what was attached before.
  pub reattach_lem :
      (ps : Pointers) (arrays : Arrays) (w : WaitSetInfo S) (x : ℕ)
      → contains (attached dds (reattach dds ps arrays w).wait_set) x
        ≡ contains (required ps arrays) x
  unfolding reattach
  reattach_lem ps arrays w x =
      let s₀ = detach_attached dds w.wait_set in
      let subs = entries arrays.subscriptions in
      let s₁ = attach_each dds ps.subscriber_condition subs s₀ in
      let cs₁ = map ps.subscriber_condition (not_null subs) in
      let e₁ : contains (attached dds s₁) x ≡ contains cs₁ x =
        attached_each ps.subscriber_condition subs [] s₀ x (none_left w.wait_set x)
        ∙ contains-append cs₁ [] x
        ∙ or_false (contains cs₁ x) in
      let guards = entries arrays.guard_conditions in
      let s₂ = attach_each dds (λ y. y) guards s₁ in
      let cs₂ = map (λ y. y) (not_null guards) ++ cs₁ in
      let e₂ : contains (attached dds s₂) x ≡ contains cs₂ x =
        attached_each (λ y. y) guards cs₁ s₁ x e₁ in
      let services = entries arrays.services in
      let s₃ = attach_each dds ps.service_condition services s₂ in
      let cs₃ = map ps.service_condition (not_null services) ++ cs₂ in
      let e₃ : contains (attached dds s₃) x ≡ contains cs₃ x =
        attached_each ps.service_condition services cs₂ s₂ x e₂ in
      let clients = entries arrays.clients in
      let s₄ = attach_each dds ps.client_condition clients s₃ in
      let cs₄ = map ps.client_condition (not_null clients) ++ cs₃ in
      let e₄ : contains (attached dds s₄) x ≡ contains cs₄ x =
        attached_each ps.client_condition clients cs₃ s₃ x e₃ in
      let status = status_conditions_of ps arrays.events in
      attached_all status s₄ x
      ∙ ap (λ b. contains status x || b) e₄
      ∙ sym (contains-append status cs₄ x)
