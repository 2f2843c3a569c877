-- ===== src/Cdr/Codec/Align.antt =====
-- Codecs with another reader, behind an alignment, and of counted bytes.
use rmw_gurumdds.Base.{
  ℕ, ◌+◌, ◌^◌, ◌<◌, ◌≡◌, refl, ◌∙◌, sym, Bool, true, false, if◌then◌else◌, List, length, Result, ok,
  ◌>>=◌, >>=-assoc,
}
use rmw_gurumdds.Cdr.Words.{Width, bytes}
use rmw_gurumdds.Cdr.Buffer.{CdrBuffer, roundup, append, fetch, align_up}
use rmw_gurumdds.Cdr.Codec.{Codec}
use rmw_gurumdds.Cdr.Codec.Steps.{roundup-Codec, append-Codec}
use rmw_gurumdds.Cdr.Codec.Bind.{bind-Codec}
use mathlib.Core.Path.{subst}

-- A reader that makes more of what the first one reads.
pub reader-Codec :
    {A B : Type 0} {write : Bool → CdrBuffer → Result CdrBuffer} {finish : ℕ → ℕ}
    {read : CdrBuffer → Result (A × CdrBuffer)} {read' : CdrBuffer → Result (B × CdrBuffer)} {a : A}
    {b : B}
    → Codec write finish read a
    → ((d d' : CdrBuffer) → read d ≡ ok (a, d') → read' d ≡ ok (b, d'))
    → Codec write finish read' b
reader-Codec c h = record {
  grows = c.grows;
  counts = c.counts;
  fits = λ x p q.
      let w = c.fits x p q in
      record {
        out = w.out;
        returns = w.returns;
        frame = w.frame;
        reads = λ d e fit lim same. h d _ (w.reads d e fit lim same);
      };
  full = c.full;
}

pub align-Codec :
    {A : Type 0} (w : Width) {write : Bool → CdrBuffer → Result CdrBuffer} {finish : ℕ → ℕ}
    {read : CdrBuffer → Result (A × CdrBuffer)} {a : A}
    → Codec write finish read a
    → Codec
        (λ s b. roundup (bytes w) b >>= write s)
        (λ o. finish (align_up w o))
        (λ d. roundup (bytes w) d >>= read)
        a
align-Codec w {read = r} c =
    reader-Codec (bind-Codec (λ _. r) (roundup-Codec w) c)
      λ d d' e. sym (>>=-assoc (roundup (bytes w) d) _ _) ∙ e

pub bytes-Codec :
    (bs : List ℕ) (n : ℕ)
    → length bs ≡ n
    → n < 2 ^ 63
    → Codec (λ s b. append s bs b) (λ o. o + n) (fetch n) bs
bytes-Codec bs n e small =
    subst (λ (k : ℕ). Codec (λ s b. append s bs b) (λ o. o + k) (fetch k) bs) e
      (append-Codec bs (rw e small))

-- A branch that writer and reader take on the same test.
pub if-Codec :
    {A : Type 0} (c : Bool) {write₁ write₂ : Bool → CdrBuffer → Result CdrBuffer}
    {finish₁ finish₂ : ℕ → ℕ} {read₁ read₂ : CdrBuffer → Result (A × CdrBuffer)} {a : A}
    → (c ≡ true → Codec write₁ finish₁ read₁ a)
    → (c ≡ false → Codec write₂ finish₂ read₂ a)
    → Codec
        (λ s b. if c then write₁ s b else write₂ s b)
        (λ o. if c then finish₁ o else finish₂ o)
        (λ d. if c then read₁ d else read₂ d)
        a
if-Codec true yes_ no_ = yes_ refl
if-Codec false yes_ no_ = no_ refl

pub if_true : (A B : Type 0) (c : Bool) → c ≡ true → (if c then A else B) → A
if_true A B true e h = h
if_true A B false e h = cc

pub if_false : (A B : Type 0) (c : Bool) → c ≡ false → (if c then A else B) → B
if_false A B true e h = cc
if_false A B false e h = h
