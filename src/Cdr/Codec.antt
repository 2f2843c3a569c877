-- ===== src/Cdr/Codec.antt =====
-- What it means that a writer and a reader of CDR buffers fit together, and the rules by which
-- the operations of the serializer and the deserializer are put together.
pub mod Steps
pub mod Bind
pub mod Align
use rmw_gurumdds.Base.{
  ℕ, ◌+◌, ◌-◌, ◌*◌, ◌/◌, ◌%◌, ◌^◌, ◌≤◌, ◌<◌, ◌≡◌, refl, ◌∙◌, sym, ap, ap₂, ◌⊎◌, inl, inr, Bool,
  true, false, List, [], ◌∷◌, ltb, lt→ltb, le→ltb, if◌then◌else◌, length, arith, Result, ok, err,
  out_of_buffer, ◌>>=◌, >>=-ok, >>=-err,
}
use native.Mathlib.Nat.{add_assoc}
use rmw_gurumdds.Base.Bits.{bit_and_low}
use rmw_gurumdds.Cdr.Memory.{Mem, store, load, store_below, store_above, load-store}
use rmw_gurumdds.Cdr.Words.{Width, bytes, w8, w16, w32, w64}
use rmw_gurumdds.Cdr.Buffer.{
  CdrBuffer, size_mod, advance, padding, roundup, append, fetch, align_up,
}

-- `d` holds, between the offsets `lo` and `hi`, the bytes that the memory `m` has above `base`.
abbrev pub Copied : Mem → ℕ → CdrBuffer → ℕ → ℕ → Type 0
Copied m base d lo hi = (x : ℕ) → lo ≤ x → x < hi → d.mem (d.buf + x) ≡ m (base + x)

-- `m` differs from the memory of `b` only between the offsets `lo` and `hi`.
abbrev pub Outside : Mem → CdrBuffer → ℕ → ℕ → Type 0
Outside m b lo hi = (x : ℕ) → (x < b.buf + lo) ⊎ (b.buf + hi ≤ x) → m x ≡ b.mem x

-- The outcome of a writer that had room, and what a reader then makes of a copy.
pub record Written {A : Type 0} (write : Bool → CdrBuffer → Result CdrBuffer)
    (read : CdrBuffer → Result (A × CdrBuffer)) (a : A) (b : CdrBuffer) (end : ℕ) : Type 0 where
  pub out : Mem
  pub returns : write true b ≡ ok (record b { mem = out; offset = end })
  pub frame : Outside out b b.offset end
  pub reads :
      (d : CdrBuffer)
      → d.offset ≡ b.offset
      → end ≤ d.size
      → d.size < size_mod
      → Copied out b.buf d b.offset end
      → read d ≡ ok (a, record d { offset = end })

-- `finish o` is the offset at which the value `a` ends if it begins at `o`.
pub record Codec {A : Type 0} (write : Bool → CdrBuffer → Result CdrBuffer) (finish : ℕ → ℕ)
    (read : CdrBuffer → Result (A × CdrBuffer)) (a : A) : Type 0 where
  pub grows : (o : ℕ) → o ≤ finish o
  -- Without SERIALIZE the value is only counted.
  pub counts :
      (b : CdrBuffer)
      → b.size < size_mod
      → finish b.offset ≤ b.size
      → write false b ≡ ok (record b { offset = finish b.offset })
  -- With room the value is written, and read back from every copy.
  pub fits :
      (b : CdrBuffer)
      → b.size < size_mod
      → finish b.offset ≤ b.size
      → Written write read a b (finish b.offset)
  -- Without room the writer throws.
  pub full :
      (b : CdrBuffer)
      → b.size < 2 ^ 63
      → b.offset ≤ b.size
      → b.size < finish b.offset
      → write true b ≡ err out_of_buffer
