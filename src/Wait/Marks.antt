-- ===== src/Wait/Marks.antt =====
-- Which entries a call of `wait` leaves (rmw_gurumdds_cpp/src/wait.cpp).
use rmw_gurumdds.Base.{
  ℕ, ◌≡◌, refl, ap, ◌∙◌, Bool, false, ◌==◌, if◌then◌else◌, inl, inr, Bool-cases, List, [], ◌∷◌, map,
  All, Option, none, some,
}
use mathlib.Core.List.{append-nil}
use rmw_gurumdds.Event.Converter.{ret_ok, DdsRet, dds_ok}
use rmw_gurumdds.Wait.{EventInfo, Pointers, Arrays}
use rmw_gurumdds.Wait.Attach.{entries, contains}
use rmw_gurumdds.Wait.Active.{
  Marked, Outcome, on_array, more_resets, and_then, mark_read, mark_guards,
  handle_active_event_conditions, mark_all, go_on,
}

-- The entries that pass a test, and null in the place of the others.
abbrev pub marked : (ℕ → Bool) → List ℕ → List ℕ
marked test xs = map (λ x. if test x then x else 0) xs

abbrev pub marked_array : (ℕ → Bool) → Option (List ℕ) → Option (List ℕ)
marked_array test none = none
marked_array test (some xs) = some (marked test xs)

-- An entry, and its read condition, are not null.
abbrev pub IsReadable : (ℕ → ℕ) → ℕ → Type 0
IsReadable condition x = ((x == 0) ≡ false) × ((condition x == 0) ≡ false)

-- An event has its info.
pub record HasInfo (ps : Pointers) (e : ℕ) : Type 0 where
  pub info : EventInfo
  pub at_ : (ps.event_at e).data_ ≡ some info

-- The changed status of an event, whatever its info is.
abbrev pub changed : Pointers → ℕ → Bool
changed ps e = elim (ps.event_at e).data_ [
  | none ↦ false
  | some info ↦ info.is_status_changed (ps.event_at e).event_type
]

mark_read_lem :
    (condition : ℕ → ℕ) (active xs : List ℕ)
    → All (IsReadable condition) xs
    → mark_read condition active xs
      ≡ record { array = marked (λ x. contains active (condition x)) xs; ret = ret_ok; resets = [] }
unfolding mark_read
mark_read_lem condition active [] h = refl
mark_read_lem condition active (x ∷ xs) h = elim (Bool-cases (contains active (condition x))) [
  | inl yes_ ↦ rw (h.0.0, h.0.1, yes_, mark_read_lem condition active xs h.1) refl
  | inr no_ ↦ rw (h.0.0, h.0.1, no_, mark_read_lem condition active xs h.1) refl
]

-- The entries that pass a test.
abbrev pub chosen : (ℕ → Bool) → List ℕ → List ℕ
chosen test [] = []
chosen test (x ∷ xs) = if test x then x ∷ chosen test xs else chosen test xs

mark_guards_lem :
    (reset : ℕ → DdsRet) (active xs : List ℕ)
    → ((x : ℕ) → reset x ≡ dds_ok)
    → All (λ x. (x == 0) ≡ false) xs
    → mark_guards reset active xs ≡ record {
      array = marked (contains active) xs;
      ret = ret_ok;
      resets = chosen (contains active) xs;
    }
unfolding mark_guards
mark_guards_lem reset active [] r h = refl
mark_guards_lem reset active (x ∷ xs) r h = elim (Bool-cases (contains active x)) [
  | inl yes_ ↦ rw (h.0, yes_, r x, mark_guards_lem reset active xs r h.1) refl
  | inr no_ ↦ rw (h.0, no_, mark_guards_lem reset active xs r h.1) refl
]

mark_events_lem :
    (ps : Pointers) (es : List ℕ)
    → All (HasInfo ps) es
    → handle_active_event_conditions ps es
      ≡ record { array = marked (changed ps) es; ret = ret_ok; resets = [] }
unfolding handle_active_event_conditions
mark_events_lem ps [] h = refl
mark_events_lem ps (e ∷ es) h =
    elim (Bool-cases (h.0.info.is_status_changed (ps.event_at e).event_type)) [
      | inl yes_ ↦
          rw (handle_active_event_conditions, changed, h.0.at_, yes_, mark_events_lem ps es h.1)
            refl
      | inr no_ ↦
          rw (handle_active_event_conditions, changed, h.0.at_, no_, mark_events_lem ps es h.1) refl
    ]

-- What `wait` relies on: no entry of an array is null, none lacks its read condition or its info.
pub record IsComplete (ps : Pointers) (a : Arrays) : Type 0 where
  pub subscriptions : All (IsReadable ps.subscriber_condition) (entries a.subscriptions)
  pub guard_conditions : All (λ x. (x == 0) ≡ false) (entries a.guard_conditions)
  pub services : All (IsReadable ps.service_condition) (entries a.services)
  pub clients : All (IsReadable ps.client_condition) (entries a.clients)
  pub events : All (HasInfo ps) (entries a.events)

-- The arrays with null in the place of what is not active, or has no changed status.
abbrev pub marked_arrays : Pointers → List ℕ → Arrays → Arrays
marked_arrays ps active a = record {
  subscriptions = marked_array (λ x. contains active (ps.subscriber_condition x)) a.subscriptions;
  guard_conditions = marked_array (contains active) a.guard_conditions;
  services = marked_array (λ x. contains active (ps.service_condition x)) a.services;
  clients = marked_array (λ x. contains active (ps.client_condition x)) a.clients;
  events = marked_array (changed ps) a.events;
}

on_array_lem :
    (f : List ℕ → Marked) (test : ℕ → Bool) (resets : List ℕ → List ℕ) (xs : Option (List ℕ))
    (write : Option (List ℕ) → Arrays)
    → resets [] ≡ []
    → f (entries xs)
      ≡ record { array = marked test (entries xs); ret = ret_ok; resets = resets (entries xs) }
    → on_array f xs write
      ≡ record { arrays = write (marked_array test xs); ret = ret_ok; resets = resets (entries xs) }
on_array_lem f test resets none write e h = rw e refl
on_array_lem f test resets (some xs) write e h = rw h refl

and_then_ok :
    (o : Outcome) (rest : Arrays → Outcome) {a : Arrays} {rs : List ℕ}
    → o ≡ record { arrays = a; ret = ret_ok; resets = rs }
    → and_then o rest ≡ more_resets rs (rest a)
unfolding go_on
and_then_ok o rest e = rw e refl

module _ (ps : Pointers) (reset : ℕ → DdsRet) (active : List ℕ)
    (resets : (x : ℕ) → reset x ≡ dds_ok) where
  pub mark_all_lem :
      (a : Arrays)
      → IsComplete ps a
      → mark_all ps reset active a ≡ record {
        arrays = marked_arrays ps active a;
        ret = ret_ok;
        resets = chosen (contains active) (entries a.guard_conditions);
      }
  unfolding mark_all
  mark_all_lem a c =
      let guards = chosen (contains active) (entries a.guard_conditions) in
      and_then_ok _ _ (
        on_array_lem (mark_read ps.subscriber_condition active) _ (λ _. []) a.subscriptions _ refl
          (mark_read_lem ps.subscriber_condition active (entries a.subscriptions) c.subscriptions))
      ∙ and_then_ok _ _ (
          on_array_lem (mark_guards reset active) _ (chosen (contains active)) a.guard_conditions _
            refl
            (mark_guards_lem reset active (entries a.guard_conditions) resets c.guard_conditions))
      ∙ ap (more_resets guards) (
          and_then_ok _ _ (
            on_array_lem (mark_read ps.service_condition active) _ (λ _. []) a.services _ refl
              (mark_read_lem ps.service_condition active (entries a.services) c.services))
          ∙ and_then_ok _ _ (
              on_array_lem (mark_read ps.client_condition active) _ (λ _. []) a.clients _ refl
                (mark_read_lem ps.client_condition active (entries a.clients) c.clients))
          ∙ on_array_lem (handle_active_event_conditions ps) _ (λ _. []) a.events _ refl
              (mark_events_lem ps (entries a.events) c.events))
      ∙ ap
          (λ (rs : List ℕ). record {
            arrays = marked_arrays ps active a;
            ret = ret_ok;
            resets = rs;
          })
          (append-nil guards)
