-- ===== src/Cdr/Codec/Steps.antt =====
-- `roundup`, `append` and `fetch` of Cdr.Buffer, and the codecs that they are.
use rmw_gurumdds.Base.{[], sym}
use rmw_gurumdds.Base.{
  ℕ, ◌+◌, ◌-◌, ◌%◌, ◌^◌, ◌≤◌, ◌<◌, ◌≡◌, refl, ◌∙◌, ap, ap₂, inl, inr, true, false, List, lt→ltb,
  le→ltb, length, arith, ok, err, out_of_buffer, ◌>>=◌, >>=-ok,
}
use native.Mathlib.Nat.{add_assoc, add-zero}
use rmw_gurumdds.Base.Bits.{bit_and_low}
use rmw_gurumdds.Cdr.Memory.{store, load, store_below, store_above, load-store}
use rmw_gurumdds.Cdr.Words.{Width, bytes, w8, w16, w32, w64}
use rmw_gurumdds.Cdr.Buffer.{CdrBuffer, size_mod, padding, roundup, append, fetch, align_up}
use rmw_gurumdds.Cdr.Codec.{Codec, Copied}

padding-align_up : (w : Width) (o : ℕ) → o < size_mod → o + padding (bytes w) o ≡ align_up w o
unfolding padding align_up
padding-align_up w8 o h = omega (arith, bit_and_low 0 ((size_mod - o % size_mod) % size_mod))
padding-align_up w16 o h = omega (arith, bit_and_low 1 ((size_mod - o % size_mod) % size_mod))
padding-align_up w32 o h = omega (arith, bit_and_low 2 ((size_mod - o % size_mod) % size_mod))
padding-align_up w64 o h = omega (arith, bit_and_low 3 ((size_mod - o % size_mod) % size_mod))

pub align_up_bounds : (w : Width) (o : ℕ) → (o ≤ align_up w o) × (align_up w o < o + 8)
unfolding align_up
align_up_bounds w8 o = omega arith
align_up_bounds w16 o = omega arith
align_up_bounds w32 o = omega arith
align_up_bounds w64 o = omega arith

rounded :
    (w : Width) (o : ℕ)
    → align_up w o < size_mod
    → (o + padding (bytes w) o) % size_mod ≡ align_up w o
rounded w o h =
    let below : o < size_mod = omega (arith, align_up_bounds w o) in
    rw (padding-align_up w o below) (omega arith)

pub roundup_ok :
    (w : Width) (b : CdrBuffer)
    → b.size < size_mod
    → align_up w b.offset ≤ b.size
    → roundup (bytes w) b ≡ ok (record b { offset = align_up w b.offset })
unfolding roundup
roundup_ok w b h fit =
    rw (rounded w b.offset (omega arith), le→ltb b.size (align_up w b.offset) fit) refl

pub roundup_err :
    (w : Width) (b : CdrBuffer)
    → b.size < 2 ^ 63
    → b.offset ≤ b.size
    → b.size < align_up w b.offset
    → roundup (bytes w) b ≡ err out_of_buffer
unfolding roundup
roundup_err w b h le full =
    rw
      (
        rounded w b.offset (omega (arith, align_up_bounds w b.offset)),
        lt→ltb b.size (align_up w b.offset) full,
      )
      refl

module _ {A : Type 0} (a : A) where
  -- Nothing is written, and the reader answers at once.
  pub pure-Codec : Codec (λ s b. ok b) (λ o. o) (λ d. ok (a, d)) a
  pure-Codec = record {
    grows = λ o. omega arith;
    counts = λ b h fit. refl;
    fits = λ b h fit. record {
      out = b.mem;
      returns = refl;
      frame = λ x h. refl;
      reads = λ d e fit h same. ap (λ (o : ℕ). ok (a, record d { offset = o })) e;
    };
    full = λ b h le full. absurd (omega arith);
  }

pub roundup-Codec :
    (w : Width)
    → Codec
        (λ s b. roundup (bytes w) b)
        (align_up w)
        (λ d. roundup (bytes w) d >>= λ d'. ok (tt {0}, d'))
        tt
roundup-Codec w = record {
  grows = λ o. (align_up_bounds w o).0;
  counts = λ b h fit. roundup_ok w b h fit;
  fits = λ b h fit. record {
    out = b.mem;
    returns = roundup_ok w b h fit;
    frame = λ x h. refl;
    reads = λ d e fit' h' same.
        >>=-ok _ (roundup_ok w d h' (rw e fit'))
        ∙ ap (λ (o : ℕ). ok (tt {0}, record d { offset = align_up w o })) e;
  };
  full = λ b h le full. roundup_err w b h le full;
}

append_ok :
    (bs : List ℕ) (b : CdrBuffer)
    → b.size < size_mod
    → b.offset + length bs ≤ b.size
    → append true bs b
      ≡ ok (record b { mem = store b.mem (b.buf + b.offset) bs; offset = b.offset + length bs })
unfolding append
append_ok bs b h fit =
    let same : (b.offset + length bs) % size_mod ≡ b.offset + length bs = omega arith in
    rw (same, le→ltb b.size (b.offset + length bs) fit) refl

fetch_ok :
    (n : ℕ) (d : CdrBuffer)
    → d.size < size_mod
    → d.offset + n ≤ d.size
    → fetch n d ≡ ok (load d.mem (d.buf + d.offset) n, record d { offset = d.offset + n })
unfolding fetch
fetch_ok n d h fit =
    let same : (d.offset + n) % size_mod ≡ d.offset + n = omega arith in
    rw (same, le→ltb d.size (d.offset + n) fit) refl

append_count :
    (bs : List ℕ) (b : CdrBuffer)
    → b.size < size_mod
    → b.offset + length bs ≤ b.size
    → append false bs b ≡ ok (record b { offset = b.offset + length bs })
unfolding append
append_count bs b h fit =
    let same : (b.offset + length bs) % size_mod ≡ b.offset + length bs = omega arith in
    ap (λ (o : ℕ). ok (record b { offset = o })) same

append_full :
    (bs : List ℕ) (b : CdrBuffer)
    → length bs < 2 ^ 63
    → b.size < 2 ^ 63
    → b.offset ≤ b.size
    → b.size < b.offset + length bs
    → append true bs b ≡ err out_of_buffer
unfolding append
append_full bs b small h le full =
    let same : (b.offset + length bs) % size_mod ≡ b.offset + length bs = omega arith in
    rw (same, lt→ltb b.size (b.offset + length bs) full) refl

load-append :
    (bs : List ℕ) (b d : CdrBuffer)
    → d.offset ≡ b.offset
    → Copied (store b.mem (b.buf + b.offset) bs) b.buf d b.offset (b.offset + length bs)
    → load d.mem (d.buf + d.offset) (length bs) ≡ bs
load-append bs b d e same =
    load-store b.mem d.mem (b.buf + b.offset) (d.buf + d.offset) bs
      λ i p. rw (e, add_assoc, add_assoc) (same (b.offset + i) (omega arith) (omega arith))

-- The bytes that `append` stores are those that `fetch` of as many bytes returns.
pub append-Codec :
    (bs : List ℕ)
    → length bs < 2 ^ 63
    → Codec (λ s b. append s bs b) (λ o. o + length bs) (fetch (length bs)) bs
append-Codec bs small = record {
  grows = λ o. omega arith;
  counts = λ b h fit. append_count bs b h fit;
  fits = λ b h fit. record {
    out = store b.mem (b.buf + b.offset) bs;
    returns = append_ok bs b h fit;
    frame = λ x outside. elim outside [
      | inl below ↦ store_below b.mem (b.buf + b.offset) bs x below
      | inr above ↦ store_above b.mem (b.buf + b.offset) bs x (omega arith)
    ];
    reads = λ d e fit' h' same.
        fetch_ok (length bs) d h' (rw e fit')
        ∙ ap₂ (λ l (o : ℕ). ok (l, record d { offset = o + length bs })) (load-append bs b d e same)
            e;
  };
  full = λ b h le full. append_full bs b small h le full;
}

-- Nothing to store, and a reader that takes nothing.
pub empty-Codec : Codec {A = List ℕ} (λ s b. append s [] b) (λ o. o + 0) (λ d. ok ([], d)) []
empty-Codec =
    let c = append-Codec [] (omega arith) in
    record {
      grows = c.grows;
      counts = c.counts;
      fits = λ b h fit.
          let w = c.fits b h fit in
          record {
            out = w.out;
            returns = w.returns;
            frame = w.frame;
            reads = λ d e fit' h' same.
                ap (λ (o : ℕ). ok ([], record d { offset = o })) (e ∙ sym (add-zero b.offset));
          };
      full = c.full;
    }
