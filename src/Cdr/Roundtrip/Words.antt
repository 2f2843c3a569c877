-- ===== src/Cdr/Roundtrip/Words.antt =====
-- The operators `<<` and `>>` for words of 8 to 64 bits (rmw_gurumdds_cpp/src/cdr_deser_buffer.cpp).
use rmw_gurumdds.Base.{ℕ, ◌+◌, ◌^◌, ◌<◌, ◌∙◌, ok, >>=-after, ap, arith}
use rmw_gurumdds.Cdr.Memory.{Endian, word_bytes, length-word_bytes}
use rmw_gurumdds.Cdr.Words.{Width, bytes, w8, w16, w32, w64, differs, swap_word_lem}
use rmw_gurumdds.Cdr.Buffer.{roundup, fetch, align_up}
use rmw_gurumdds.Cdr.Codec.{Codec}
use rmw_gurumdds.Cdr.Codec.Align.{reader-Codec, align-Codec, bytes-Codec}
use rmw_gurumdds.Cdr.Write.{write_word}
use rmw_gurumdds.Cdr.Read.{read_word}

bytes_small : (w : Width) → bytes w < 2 ^ 63
bytes_small w8 = omega arith
bytes_small w16 = omega arith
bytes_small w32 = omega arith
bytes_small w64 = omega arith

abbrev pub word_end : Width → ℕ → ℕ
word_end w o = align_up w o + bytes w

module _ (from to : Endian) where
  -- The operators for words of 8 to 64 bits fit together as a codec, for words that fit their
  -- width and systems of any byte order.
  pub word-Codec :
      (w : Width) (v : ℕ)
      → v < 256 ^ bytes w
      → Codec (λ s b. write_word from s w v b) (word_end w) (read_word to (differs from to) w) v
  unfolding write_word read_word
  word-Codec w v fits =
      reader-Codec
        (align-Codec w (
          bytes-Codec (word_bytes from (bytes w) v) (bytes w) (length-word_bytes from (bytes w) v)
            (bytes_small w)))
        λ d d' e.
          >>=-after (roundup (bytes w) d) (fetch (bytes w)) _ e
          ∙ ap (λ (x : ℕ). ok (x, d')) (swap_word_lem from to w v fits)
