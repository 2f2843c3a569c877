-- ===== src/Cdr/Roundtrip/Arrays.antt =====
-- `copy_arr`, and the operators for `std::u16string` (rmw_gurumdds_cpp/src/cdr_deser_buffer.cpp).
use rmw_gurumdds.Base.{
  ℕ, ◌+◌, ◌*◌, ◌^◌, ◌<◌, ◌≡◌, refl, ◌∙◌, inl, inr, Bool-cases, false, List, [], ◌∷◌, ◌++◌, map,
  length, length-append, take-append, drop-append, take, drop, All, Result, ok, ◌>>=◌, >>=-after,
  ap, ap₂, arith, ◌==◌, if◌then◌else◌,
}
use rmw_gurumdds.Cdr.Memory.{Endian, word_bytes, word_value, length-word_bytes}
use rmw_gurumdds.Cdr.Words.{Width, bytes, w8, w16, w32, w64, differs, swap_word, swap_word_lem}
use rmw_gurumdds.Cdr.Buffer.{CdrBuffer, roundup, append, fetch, align_up}
use rmw_gurumdds.Cdr.Codec.{Codec}
use rmw_gurumdds.Cdr.Codec.Bind.{bind-Codec}
use rmw_gurumdds.Cdr.Codec.Steps.{pure-Codec, empty-Codec}
use rmw_gurumdds.Cdr.Codec.Align.{reader-Codec, align-Codec, bytes-Codec}
use rmw_gurumdds.Cdr.Write.{write_u16string, array_bytes, copy_arr_to}
use rmw_gurumdds.Cdr.Read.{read_u16string, u16string_rest, array_words, swap_element, copy_arr_from}
use rmw_gurumdds.Cdr.Roundtrip.Words.{word_end, word-Codec}
use native.Mathlib.Nat.{mod-eq_of_lt}

abbrev pub Fits : Width → ℕ → Type 0
Fits w v = v < 256 ^ bytes w

elements_small : (w : Width) (n : ℕ) → n < 2 ^ 32 → n * bytes w < 2 ^ 63
elements_small w8 n h = omega arith
elements_small w16 n h = omega arith
elements_small w32 n h = omega arith
elements_small w64 n h = omega arith

abbrev pub elements_end : Width → ℕ → ℕ → ℕ
elements_end w n o = align_up w o + n * bytes w

-- `copy_arr` returns at once on an empty array, without an alignment.
abbrev pub copied_end : Width → List ℕ → ℕ → ℕ
copied_end w [] o = o
copied_end w (v ∷ vs) o = elements_end w (length (v ∷ vs)) o

abbrev pub u16string_end : List ℕ → ℕ → ℕ
u16string_end src o = elements_end w16 (length src) (word_end w32 o)

-- The overload for `uint64_t` swaps only the low half: it reads back no foreign array.
abbrev pub CanCopy : Endian → Endian → Width → Type 0
CanCopy from to w64 = differs from to ≡ false
CanCopy from to _ = Unit {0}

module _ (from to : Endian) where
  length-array_bytes :
      (w : Width) (vs : List ℕ) → length (array_bytes from w vs) ≡ length vs * bytes w
  unfolding array_bytes
  length-array_bytes w [] = omega arith
  length-array_bytes w (v ∷ vs) = ground (
    arith,
    length-append (word_bytes from (bytes w) v) (array_bytes from w vs),
    length-word_bytes from (bytes w) v,
    length-array_bytes w vs,
  )

  take_word :
      (w : Width) (v : ℕ) (rest : List ℕ)
      → take (bytes w) (word_bytes from (bytes w) v ++ rest) ≡ word_bytes from (bytes w) v
  take_word w v rest =
      rw (length-word_bytes from (bytes w) v) at (take-append (word_bytes from (bytes w) v) rest)

  drop_word :
      (w : Width) (v : ℕ) (rest : List ℕ)
      → drop (bytes w) (word_bytes from (bytes w) v ++ rest) ≡ rest
  drop_word w v rest =
      rw (length-word_bytes from (bytes w) v) at (drop-append (word_bytes from (bytes w) v) rest)

  -- `undo` is the byte swap that the reader applies to each element.
  Undoes : Width → (ℕ → ℕ) → Type 0
  Undoes w undo =
      (v : ℕ)
      → Fits w v
      → (if differs from to
          then undo (word_value to (word_bytes from (bytes w) v))
          else word_value to (word_bytes from (bytes w) v))
        ≡ v

  array_back :
      (w : Width) (undo : ℕ → ℕ)
      → Undoes w undo
      → (vs : List ℕ) → All (Fits w) vs
      → (if differs from to
          then map undo (array_words to w (length vs) (array_bytes from w vs))
          else array_words to w (length vs) (array_bytes from w vs))
        ≡ vs
  unfolding array_words array_bytes Undoes
  array_back w undo h [] fit = elim (Bool-cases (differs from to)) [
    | inl swapped ↦ rw swapped refl
    | inr same ↦ rw same refl
  ]
  array_back w undo h (v ∷ vs) fit =
      let first = h v fit.0 in
      let rest = array_back w undo h vs fit.1 in
      let t = take_word w v (array_bytes from w vs) in
      let r = drop_word w v (array_bytes from w vs) in
      elim (Bool-cases (differs from to)) [
        | inl swapped ↦ rw (swapped, t, r) (ap₂ ◌∷◌ (rw swapped at first) (rw swapped at rest))
        | inr same ↦ rw (same, t, r) (ap₂ ◌∷◌ (rw same at first) (rw same at rest))
      ]

  -- The elements behind their alignment, with any byte swap that undoes the writer's order.
  elements_read : Width → (ℕ → ℕ) → ℕ → CdrBuffer → Result (List ℕ × CdrBuffer)
  elements_read w undo n d = roundup (bytes w) d >>= λ d. fetch (n * bytes w) d >>= λ p.
      let src = array_words to w n p.0 in ok ((if differs from to then map undo src else src), p.1)

  elements-Codec :
      (w : Width) (undo : ℕ → ℕ)
      → Undoes w undo
      → (vs : List ℕ) → All (Fits w) vs
      → length vs < 2 ^ 32
      → Codec
          (λ s b. roundup (bytes w) b >>= append s (array_bytes from w vs))
          (elements_end w (length vs))
          (elements_read w undo (length vs))
          vs
  unfolding elements_read
  elements-Codec w undo h vs fit small =
      reader-Codec
        (align-Codec w (
          bytes-Codec (array_bytes from w vs) (length vs * bytes w) (length-array_bytes w vs)
            (elements_small w (length vs) small)))
        λ d d' e.
          >>=-after (roundup (bytes w) d) (fetch (length vs * bytes w)) _ e
          ∙ ap (λ (l : List ℕ). ok (l, d')) (array_back w undo h vs fit)

  swap_word-Undoes : (w : Width) → Undoes w (swap_word w)
  unfolding Undoes
  swap_word-Undoes w v fit = swap_word_lem from to w v fit

  swap_element-Undoes : (w : Width) → CanCopy from to w → Undoes w (swap_element w)
  unfolding Undoes swap_element
  swap_element-Undoes w8 can v fit = swap_word_lem from to w8 v fit
  swap_element-Undoes w16 can v fit = swap_word_lem from to w16 v fit
  swap_element-Undoes w32 can v fit = swap_word_lem from to w32 v fit
  swap_element-Undoes w64 can v fit = rw can (rw can at (swap_word_lem from to w64 v fit))

  -- `std::u16string`
  u16rest-Codec :
      (src : List ℕ)
      → All (Fits w16) src
      → length src < 2 ^ 32
      → Codec
          (λ s b. roundup (bytes w16) b >>= append s (array_bytes from w16 src))
          (elements_end w16 (length src))
          (u16string_rest to (differs from to) (length src))
          src
  unfolding elements_read u16string_rest array_bytes
  u16rest-Codec [] fit small = align-Codec w16 empty-Codec
  u16rest-Codec (u ∷ us) fit small =
      let some : (length (u ∷ us) == 0) ≡ false = ground arith in
      reader-Codec (elements-Codec w16 (swap_word w16) (swap_word-Undoes w16) (u ∷ us) fit small)
        λ d d' e. rw some e

  -- The operators for std::u16string fit together as a codec, for fewer than 2 ^ 32 units of 16
  -- bits.
  pub u16string-Codec :
      (src : List ℕ)
      → All (Fits w16) src
      → length src < 2 ^ 32
      → Codec
          (λ s b. write_u16string from s src b)
          (u16string_end src)
          (read_u16string to (differs from to))
          src
  unfolding write_u16string read_u16string
  u16string-Codec src fit small = rw (mod-eq_of_lt small) (
      bind-Codec (u16string_rest to (differs from to)) (word-Codec from to w32 (length src) small)
        (u16rest-Codec src fit small))

  -- copy_arr of the two buffers, for fewer than 2 ^ 32 words that fit their width, and equal byte
  -- orders if they have 64 bits, fit together as a codec: count, write and read back, or throw
  -- without room.
  pub copy_arr-Codec :
      (w : Width)
      → CanCopy from to w
      → (vs : List ℕ) → All (Fits w) vs
      → length vs < 2 ^ 32
      → Codec
          (λ s b. copy_arr_to from s w vs b)
          (copied_end w vs)
          (copy_arr_from to (differs from to) w (length vs))
          vs
  unfolding copy_arr_to copy_arr_from elements_read
  copy_arr-Codec w can [] fit small = pure-Codec []
  copy_arr-Codec w can (v ∷ vs) fit small =
      let some : (length (v ∷ vs) == 0) ≡ false = ground arith in
      let c = elements-Codec w (swap_element w) (swap_element-Undoes w can) (v ∷ vs) fit small in
      rw some (reader-Codec c λ d d' e. rw (some, copy_arr_from) e)
