-- ===== src/Cdr/Codec/Bind.antt =====
-- Codecs one after the other.
use rmw_gurumdds.Base.{
  ℕ, ◌+◌, ◌^◌, ◌≤◌, ◌<◌, ◌≡◌, refl, ◌∙◌, inl, inr, Bool, true, false, arith, Result, err,
  out_of_buffer, ◌>>=◌, >>=-ok, >>=-err,
}
use native.Mathlib.Decide.{dec_le}
use rmw_gurumdds.Cdr.Buffer.{CdrBuffer, size_mod}
use rmw_gurumdds.Cdr.Codec.{Codec, Written}

-- A second value behind the first; its reader may depend on the first.
module _ {A B : Type 0} {write₁ : Bool → CdrBuffer → Result CdrBuffer} {finish₁ : ℕ → ℕ}
    {read₁ : CdrBuffer → Result (A × CdrBuffer)} {a : A}
    {write₂ : Bool → CdrBuffer → Result CdrBuffer} {finish₂ : ℕ → ℕ}
    (read₂ : A → CdrBuffer → Result (B × CdrBuffer)) {b : B} (first : Codec write₁ finish₁ read₁ a)
    (second : Codec write₂ finish₂ (read₂ a) b) where
  abbrev write_both : Bool → CdrBuffer → Result CdrBuffer
  write_both s x = write₁ s x >>= write₂ s

  abbrev read_both : CdrBuffer → Result (B × CdrBuffer)
  read_both d = read₁ d >>= λ p. read₂ p.0 p.1

  both_fit :
      (x : CdrBuffer)
      → x.size < size_mod
      → finish₂ (finish₁ x.offset) ≤ x.size
      → Written write_both read_both b x (finish₂ (finish₁ x.offset))
  both_fit x h fit =
      let o = x.offset in
      let g₁ : o ≤ finish₁ o = first.grows o in
      let g₂ : finish₁ o ≤ finish₂ (finish₁ o) = second.grows (finish₁ o) in
      let one = first.fits x h (omega arith) in
      let y : CdrBuffer = record x { mem = one.out; offset = finish₁ o } in
      let two = second.fits y h fit in
      record {
        out = two.out;
        returns = >>=-ok (write₂ true) one.returns ∙ two.returns;
        frame = λ z outside. elim outside [
          | inl below ↦ two.frame z (inl (omega arith)) ∙ one.frame z (inl below)
          | inr above ↦ two.frame z (inr above) ∙ one.frame z (inr (omega arith))
        ];
        reads = λ d e fit' h' same.
            >>=-ok (λ p. read₂ p.0 p.1)
              (one.reads d e (omega arith) h'
                (λ z lo hi. same z lo (omega arith) ∙ two.frame (x.buf + z) (inl (omega arith))))
            ∙ two.reads (record d { offset = finish₁ o }) refl fit' h'
                (λ z lo hi. same z (omega arith) hi);
      }

  both_full :
      (x : CdrBuffer)
      → x.size < 2 ^ 63
      → x.offset ≤ x.size
      → x.size < finish₂ (finish₁ x.offset)
      → write_both true x ≡ err out_of_buffer
  both_full x h le full = elim (dec_le (finish₁ x.offset) x.size) [
    | yes room ↦
        let one = first.fits x (omega arith) room in
        >>=-ok (write₂ true) one.returns
        ∙ second.full (record x { mem = one.out; offset = finish₁ x.offset }) h room full
    | no none ↦ >>=-err (write₂ true) (first.full x h le (omega arith))
  ]

  pub bind-Codec : Codec write_both (λ o. finish₂ (finish₁ o)) read_both b
  bind-Codec = record {
    grows = λ o. omega (arith, first.grows o, second.grows (finish₁ o));
    counts = λ x h fit.
        >>=-ok (write₂ false) (first.counts x h (omega (arith, second.grows (finish₁ x.offset))))
        ∙ second.counts (record x { offset = finish₁ x.offset }) h fit;
    fits = both_fit;
    full = both_full;
  }
