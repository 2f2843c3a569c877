-- ===== src/Wait/Poll.antt =====
-- `wait_w_polling` (rmw_gurumdds_cpp/src/wait.cpp).
use rmw_gurumdds.Base.{
  ℕ, zero, suc, ◌+◌, Bool, leb, ◌==◌, if◌then◌else◌, List, [], ◌∷◌, length, Option, none, some,
}
use rmw_gurumdds.Event.Converter.{RmwRet, ret_ok, ret_timeout}

-- `dds_ConditionSeq_get`, which gives null behind the end.
abbrev pub get : List ℕ → ℕ → ℕ
get [] i = 0
get (c ∷ cs) zero = c
get (c ∷ cs) (suc i) = get cs i

-- The first loop, over all conditions; `triggered` is what `dds_Condition_get_trigger_value` gives.
unfoldable pub collect : (ℕ → Bool) → List ℕ → List ℕ
collect triggered [] = []
collect triggered (c ∷ cs) =
    let rest = collect triggered cs in
    if c == 0 then rest else if triggered c then c ∷ rest else rest

-- The second loop, from its test number `k` on, with `i` as its variable: `in_time k` tells whether
-- that test still finds `inf || now <= t`, and `triggered k` what the conditions give in that round. It
-- gives the condition that it adds, if any, and nothing at all where the fuel ends.
unfoldable pub poll_loop : (ℕ → Bool) → (ℕ → ℕ → Bool) → List ℕ → ℕ → ℕ → ℕ → Option (Option ℕ)
poll_loop in_time triggered conds zero k i = none
poll_loop in_time triggered conds (suc fuel) k i =
    let j = (if leb (length conds) i then 0 else i) in
    let cond = get conds j in
    let rest = poll_loop in_time triggered conds fuel (k + 1) (j + 1) in
    if in_time k
    then (if cond == 0 then rest else if triggered k cond then some (some cond) else rest)
    else some none

-- `triggered ? RMW_RET_OK : RMW_RET_TIMEOUT`, and the active conditions.
abbrev pub polled : Option ℕ → RmwRet × List ℕ
polled none = (ret_timeout, [])
polled (some c) = (ret_ok, c ∷ [])

-- The second loop is not entered where the first one has found a condition.
unfoldable pub after_collect :
    (ℕ → Bool) → (ℕ → ℕ → Bool) → List ℕ → ℕ → List ℕ → Option (RmwRet × List ℕ)
unfolding poll_loop
after_collect in_time triggered conds fuel (c ∷ cs) = some (ret_ok, c ∷ cs)
after_collect in_time triggered conds fuel [] = elim (poll_loop in_time triggered conds fuel 0 0) [
  | none ↦ none
  | some r ↦ some (polled r)
]

-- `conds` are the conditions of the wait set.
unfoldable pub wait_w_polling :
    (ℕ → Bool) → (ℕ → Bool) → (ℕ → ℕ → Bool) → List ℕ → ℕ → Option (RmwRet × List ℕ)
unfolding collect after_collect
wait_w_polling first in_time triggered conds fuel =
    after_collect in_time triggered conds fuel (collect first conds)
