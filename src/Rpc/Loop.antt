-- ===== src/Rpc/Loop.antt =====
-- The loop of `rmw_take_response` (rmw_gurumdds_cpp/src/rmw_client.cpp).
use rmw_gurumdds.Base.{
  ℕ, ◌≡◌, refl, ◌∙◌, true, false, List, [], ◌∷◌, ◌++◌, map, All, Option, some, Result, ok,
}
use rmw_gurumdds.Message.Types.{Fields}
use rmw_gurumdds.Event.Converter.{ret_ok}
use rmw_gurumdds.Rpc.{Sample, Take, sample}
use rmw_gurumdds.Rpc.Samples.{same_bytes, Read, header_for}
use rmw_gurumdds.Rpc.Client.{TakeOutcome, take_loop, take_read, take_stops}

module _ (read : Sample → ℕ → Result (Option Read)) (guid : List ℕ) where
  -- A sample that is read as `r`.
  pub record ReadAs (s : Sample) (r : Read) : Type 0 where
    pub valid : s.valid_data ≡ true
    pub address : ℕ
    pub at_ : s.data_ ≡ some address
    pub reads : read s address ≡ ok (some r)

  -- A sample that is not valid, or is a response to another client.
  pub data IsPassed : Sample → Type 0 where
    not_valid : {s : Sample} → s.valid_data ≡ false → IsPassed s
    foreign :
        {s : Sample} {r : Read} → ReadAs s r → same_bytes guid r.client_guid ≡ false → IsPassed s

  -- The outcome where `s` is the response that was asked for.
  abbrev pub taken_as : Sample → Read → List Take → TakeOutcome
  taken_as s r q = record {
    ret = ret_ok;
    taken = some true;
    header = some (header_for s r);
    message = some r.message;
    rest = q;
  }

  take_own :
      (s : Sample) (r : Read) (q : List Take) (last : Option Fields)
      → ReadAs s r
      → same_bytes guid r.client_guid ≡ true
      → take_loop read guid last (sample s ∷ q) ≡ ok (taken_as s r q)
  unfolding take_loop take_read header_for
  take_own s r q last h own = rw (h.valid, h.at_, h.reads, own) refl

  -- The loop goes on behind a sample that is passed.
  take_passed :
      (s : Sample) (q : List Take) (last : Option Fields)
      → IsPassed s
      → (m : Option Fields) × (take_loop read guid last (sample s ∷ q) ≡ take_loop read guid m q)
  unfolding take_loop take_read
  take_passed s q last (not_valid h) = (last, rw h refl)
  take_passed s q last (foreign {r = r} h other) =
      (some r.message, rw (h.valid, h.at_, h.reads, other) refl)

  pub take_first :
      (passed : List Sample) (s : Sample) (r : Read) (q : List Take) (last : Option Fields)
      → All IsPassed passed
      → ReadAs s r
      → same_bytes guid r.client_guid ≡ true
      → take_loop read guid last (map sample passed ++ sample s ∷ q) ≡ ok (taken_as s r q)
  take_first [] s r q last a h own = take_own s r q last h own
  take_first (x ∷ xs) s r q last a h own =
      let step = take_passed x (map sample xs ++ sample s ∷ q) last a.0 in
      step.1 ∙ take_first xs s r q step.0 a.1 h own

  pub take_nothing :
      (passed : List Sample) (last : Option Fields)
      → All IsPassed passed
      → (m : Option Fields) × (take_loop read guid last (map sample passed)
          ≡ ok (take_stops ret_ok (some false) m []))
  unfolding take_loop
  take_nothing [] last a = (last, refl)
  take_nothing (x ∷ xs) last a =
      let step = take_passed x (map sample xs) last a.0 in
      let rest = take_nothing xs step.0 a.1 in (rest.0, step.1 ∙ rest.1)
