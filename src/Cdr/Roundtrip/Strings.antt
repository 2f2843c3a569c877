-- ===== src/Cdr/Roundtrip/Strings.antt =====
-- The operators `<<` and `>>` for `std::string` (rmw_gurumdds_cpp/src/cdr_deser_buffer.cpp).
use rmw_gurumdds.Base.{
  ℕ, ◌+◌, ◌^◌, ◌<◌, ◌≡◌, refl, ◌∙◌, false, List, [], ◌∷◌, ◌++◌, length, length-append, take-append,
  take, Result, ok, err, not_null_terminated, ◌-◌, ◌>>=◌, >>=-after, arith, ◌==◌, if◌then◌else◌,
}
use rmw_gurumdds.Cdr.Memory.{Endian}
use rmw_gurumdds.Cdr.Words.{bytes, w8, w32, differs}
use rmw_gurumdds.Cdr.Buffer.{CdrBuffer, roundup, append, fetch, align_up}
use rmw_gurumdds.Cdr.Codec.{Codec}
use rmw_gurumdds.Cdr.Codec.Bind.{bind-Codec}
use rmw_gurumdds.Cdr.Codec.Align.{reader-Codec, align-Codec, bytes-Codec}
use rmw_gurumdds.Cdr.Write.{write_string}
use rmw_gurumdds.Cdr.Read.{last, read_string, string_rest}
use rmw_gurumdds.Cdr.Roundtrip.Words.{word_end, word-Codec}
use native.Mathlib.Nat.{mod-eq_of_lt}

last-append : (bs : List ℕ) (b : ℕ) → last (bs ++ b ∷ []) ≡ b
last-append [] b = refl
last-append (x ∷ []) b = refl
last-append (x ∷ y ∷ bs) b = last-append (y ∷ bs) b

abbrev pub string_end : List ℕ → ℕ → ℕ
string_end src o = align_up w8 (word_end w32 o) + (length src + 1)

module _ (from to : Endian) where
  rest-Codec :
      (src : List ℕ)
      → length src + 1 < 2 ^ 32
      → Codec
          (λ s b. roundup (bytes w8) b >>= append s (src ++ 0 ∷ []))
          (λ o. align_up w8 o + (length src + 1))
          (string_rest to (differs from to) (length src + 1))
          src
  unfolding string_rest
  rest-Codec src small =
      let n = length src + 1 in
      let size : length (src ++ 0 ∷ []) ≡ n = omega (arith, length-append src (0 ∷ [])) in
      let some : (n == 0) ≡ false = ground arith in
      reader-Codec (align-Codec w8 (bytes-Codec (src ++ 0 ∷ []) n size (omega arith)))
        λ d d' e. rw some (>>=-after (roundup (bytes w8) d) (fetch n) _ e ∙ content d')
    where
      content :
          (d' : CdrBuffer)
          → if◌then◌else◌ {A = Result (List ℕ × CdrBuffer)}
              (last (src ++ 0 ∷ []) == 0)
              (ok (take (length src + 1 - 1) (src ++ 0 ∷ []), d'))
              (err not_null_terminated)
            ≡ ok (src, d')
      content d' =
          let same : length src + 1 - 1 ≡ length src = omega arith in
          rw (last-append src 0, same, take-append src (0 ∷ [])) refl

  -- The operators for std::string fit together as a codec, for strings whose size with the
  -- terminator is below 2 ^ 32.
  pub string-Codec :
      (src : List ℕ)
      → length src + 1 < 2 ^ 32
      → Codec
          (λ s b. write_string from s src b)
          (string_end src)
          (read_string to (differs from to))
          src
  unfolding write_string read_string
  string-Codec src small = rw (mod-eq_of_lt small) (
      bind-Codec (string_rest to (differs from to)) (word-Codec from to w32 (length src + 1) small)
        (rest-Codec src small))
