-- ===== src/Wait/Polling.antt =====
-- Polling ends (rmw_gurumdds_cpp/src/wait.cpp).
use rmw_gurumdds.Base.{
  ℕ, zero, suc, ◌+◌, ◌≤◌, ◌<◌, ◌≡◌, ◌≢◌, refl, sym, ◌∙◌, ◌⊎◌, inl, inr, Bool, true, false, ◌||◌,
  ◌==◌, ==_iff, ==_self, leb, if◌then◌else◌, Bool-cases, List, [], ◌∷◌, length, Option, none, some,
  arith,
}
use mathlib.Core.Bool.{false≢true}
use mathlib.Core.Path.{subst}
use mathlib.Core.Option.{some-injective}
use native.Mathlib.Decide.{dec_le}
use rmw_gurumdds.Event.Converter.{RmwRet, ret_ok, ret_timeout}
use rmw_gurumdds.Wait.Attach.{contains}
use rmw_gurumdds.Wait.Poll.{get, collect, poll_loop, after_collect, wait_w_polling}

-- What polling gives: a code, and the active conditions, which are all among the given ones.
pub record PollResult (run : Option (RmwRet × List ℕ)) (conds : List ℕ) : Type 0 where
  pub ret : RmwRet
  pub active : List ℕ
  pub returns : run ≡ some (ret, active)
  pub answer : ((ret ≡ ret_ok) × (active ≢ [])) ⊎ ((ret ≡ ret_timeout) × (active ≡ []))
  pub attached : (c : ℕ) → contains active c ≡ true → contains conds c ≡ true

or_right : (a b : Bool) → b ≡ true → (a || b) ≡ true
or_right true b h = refl
or_right false b h = h

or_left : (a b : Bool) → a ≡ true → (a || b) ≡ true
or_left true b h = refl
or_left false b h = cc

widen : (a b c : Bool) → (b ≡ true → c ≡ true) → (a || b) ≡ true → (a || c) ≡ true
widen true b c f h = refl
widen false b c f h = f h

get-contains : (cs : List ℕ) (i : ℕ) → (get cs i == 0) ≡ false → contains cs (get cs i) ≡ true
get-contains [] i h = cc
get-contains (c ∷ cs) zero h = or_left (c == c) (contains cs c) (==_self c)
get-contains (c ∷ cs) (suc i) h =
    or_right (c == get cs i) (contains cs (get cs i)) (get-contains cs i h)

only_one : (c d : ℕ) → contains (c ∷ []) d ≡ true → c ≡ d
only_one c d h = elim (Bool-cases (c == d)) [
  | inl same ↦ (==_iff c d).0 same
  | inr other ↦ absurd (false≢true (rw other at h))
]

-- The first loop gives some of the conditions.
collect-contains :
    (triggered : ℕ → Bool) (cs : List ℕ) (x : ℕ)
    → contains (collect triggered cs) x ≡ true
    → contains cs x ≡ true
unfolding collect
collect-contains triggered [] x h = h
collect-contains triggered (c ∷ cs) x h =
    let inner = collect-contains triggered cs x in
    elim (Bool-cases (c == 0)) [
      | inl null ↦ or_right (c == x) (contains cs x) (inner (rw null at h))
      | inr real ↦ elim (Bool-cases (triggered c)) [
        | inl hit ↦
            widen (c == x) (contains (collect triggered cs) x) (contains cs x) inner
              (rw (real, hit) at h)
        | inr miss ↦ or_right (c == x) (contains cs x) (inner (rw (real, miss) at h))
      ]
    ]

module _ (in_time : ℕ → Bool) (triggered : ℕ → ℕ → Bool) (conds : List ℕ) (n : ℕ)
    (late : in_time n ≡ false) where
  -- A result of the second loop.
  pub record Loop (fuel k i : ℕ) : Type 0 where
    pub found : Option ℕ
    pub ends : poll_loop in_time triggered conds fuel k i ≡ some found
    pub one_of : (c : ℕ) → found ≡ some c → contains conds c ≡ true

  Loop-ends : (fuel k i : ℕ) → k ≤ n → n < k + fuel → Loop fuel k i
  unfolding poll_loop
  Loop-ends zero k i p q = absurd (omega arith)
  Loop-ends (suc fuel) k i p q =
      let j : ℕ = (if leb (length conds) i then 0 else i) in
      elim (Bool-cases (in_time k)) [
        | inr over ↦ record { found = none; ends = rw over refl; one_of = λ c h. cc }
        | inl time ↦
            let before : k + 1 ≤ n = elim (dec_le (k + 1) n) [
              | yes h ↦ h
              | no h ↦
                  let same : n ≡ k = omega arith in
                  absurd (false≢true (sym (rw same at late) ∙ time))
            ] in
            let rest = Loop-ends fuel (k + 1) (j + 1) before (omega arith) in
            elim (Bool-cases (get conds j == 0)) [
              | inl null ↦ record {
                found = rest.found;
                ends = rw (time, null) rest.ends;
                one_of = rest.one_of;
              }
              | inr real ↦ elim (Bool-cases (triggered k (get conds j))) [
                | inl hit ↦ record {
                  found = some (get conds j);
                  ends = rw (time, real, hit) refl;
                  one_of = λ c h.
                      subst (λ x. contains conds x ≡ true) (some-injective _ _ h)
                        (get-contains conds j real);
                }
                | inr miss ↦ record {
                  found = rest.found;
                  ends = rw (time, real, miss) rest.ends;
                  one_of = rest.one_of;
                }
              ]
            ]
      ]

  found_result :
      (fuel : ℕ) (found : Option ℕ)
      → poll_loop in_time triggered conds fuel 0 0 ≡ some found
      → ((c : ℕ) → found ≡ some c → contains conds c ≡ true)
      → PollResult (after_collect in_time triggered conds fuel []) conds
  unfolding after_collect
  found_result fuel none e one_of = record {
    ret = ret_timeout;
    active = [];
    returns = rw (after_collect, e) refl;
    answer = inr (refl, refl);
    attached = λ c h. cc;
  }
  found_result fuel (some c) e one_of = record {
    ret = ret_ok;
    active = c ∷ [];
    returns = rw (after_collect, e) refl;
    answer = inl (refl, λ h. cc);
    attached = λ d h. subst (λ x. contains conds x ≡ true) (only_one c d h) (one_of c refl);
  }

  collected_result :
      (fuel : ℕ) (cs : List ℕ)
      → n < fuel
      → ((c : ℕ) → contains cs c ≡ true → contains conds c ≡ true)
      → PollResult (after_collect in_time triggered conds fuel cs) conds
  unfolding after_collect
  collected_result fuel [] h inside =
      let l = Loop-ends fuel 0 0 (omega arith) (omega arith) in
      found_result fuel l.found l.ends l.one_of
  collected_result fuel (c ∷ cs) h inside = record {
    ret = ret_ok;
    active = c ∷ cs;
    returns = refl;
    answer = inl (refl, λ e. cc);
    attached = inside;
  }

  -- If the time is over at some test of the clock, polling with more rounds of fuel than tests
  -- before it ends: with ok and active conditions, or with a timeout and none; and the active
  -- conditions are among those of the wait set.
  pub wait_w_polling_lem :
      (first : ℕ → Bool) (fuel : ℕ)
      → n < fuel
      → PollResult (wait_w_polling first in_time triggered conds fuel) conds
  unfolding wait_w_polling
  wait_w_polling_lem first fuel h =
      collected_result fuel (collect first conds) h (collect-contains first conds)
