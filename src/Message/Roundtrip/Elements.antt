-- ===== src/Message/Roundtrip/Elements.antt =====
-- Single elements of each type.
use rmw_gurumdds.Base.{ℕ, Bool, true, false, Result, >>=-ok, arith}
use rmw_gurumdds.Cdr.Memory.{Endian}
use rmw_gurumdds.Cdr.Words.{Width, w8, w16, differs}
use rmw_gurumdds.Cdr.Buffer.{CdrBuffer}
use rmw_gurumdds.Cdr.Codec.{Codec}
use rmw_gurumdds.Cdr.Codec.Align.{reader-Codec}
use rmw_gurumdds.Cdr.Roundtrip.Words.{word-Codec}
use rmw_gurumdds.Cdr.Roundtrip.Strings.{string-Codec}
use rmw_gurumdds.Cdr.Roundtrip.Arrays.{u16string-Codec}
use rmw_gurumdds.Message.Types.{Shape, Elem, flag, word, text, wide_text, struct, Fields}
use rmw_gurumdds.Message.Serialize.{
  write_boolean, write_wchar, write_text, write_wide_text, write_primitive, write_struct,
}
use rmw_gurumdds.Message.Deserialize.{
  read_flag, read_word_elem, read_text, read_wide_text, read_struct,
}
use rmw_gurumdds.Message.Typing.{
  ElemOk, elem_end, flags, wchars, texts, wide_texts, structs, primitives,
}

module _ (from to : Endian) (accepts : Shape → ℕ → Bool) (Nested : Fields → Type 0)
    (nested : Fields → ℕ → ℕ) where
  pub flag-Codec :
      (e : Elem)
      → ElemOk flags Nested e
      → Codec
          (λ s b. write_boolean from s e b)
          (elem_end flags nested e)
          (read_flag to (differs from to) accepts)
          e
  unfolding write_boolean read_flag
  flag-Codec (flag true) p =
      reader-Codec (word-Codec from to w8 1 (omega arith)) λ d d' h. >>=-ok _ h
  flag-Codec (flag false) p =
      reader-Codec (word-Codec from to w8 0 (omega arith)) λ d d' h. >>=-ok _ h
  flag-Codec (word v) p = absurd p
  flag-Codec (text cs) p = absurd p
  flag-Codec (wide_text cs) p = absurd p
  flag-Codec (struct fs) p = absurd p

  pub primitive-Codec :
      (w : Width) (e : Elem)
      → ElemOk (primitives w) Nested e
      → Codec
          (λ s b. write_primitive from s w e b)
          (elem_end (primitives w) nested e)
          (read_word_elem to (differs from to) accepts w)
          e
  unfolding write_primitive read_word_elem
  primitive-Codec w (word v) p = reader-Codec (word-Codec from to w v p) λ d d' h. >>=-ok _ h
  primitive-Codec w (flag v) p = absurd p
  primitive-Codec w (text cs) p = absurd p
  primitive-Codec w (wide_text cs) p = absurd p
  primitive-Codec w (struct fs) p = absurd p

  pub wchar-Codec :
      (e : Elem)
      → ElemOk wchars Nested e
      → Codec
          (λ s b. write_wchar from s e b)
          (elem_end wchars nested e)
          (read_word_elem to (differs from to) accepts w16)
          e
  unfolding write_wchar read_word_elem
  wchar-Codec (word v) p = reader-Codec (word-Codec from to w16 v p) λ d d' h. >>=-ok _ h
  wchar-Codec (flag v) p = absurd p
  wchar-Codec (text cs) p = absurd p
  wchar-Codec (wide_text cs) p = absurd p
  wchar-Codec (struct fs) p = absurd p

  pub text-Codec :
      (e : Elem)
      → ElemOk texts Nested e
      → Codec
          (λ s b. write_text from s e b)
          (elem_end texts nested e)
          (read_text to (differs from to) accepts)
          e
  unfolding write_text read_text
  text-Codec (text cs) p = reader-Codec (string-Codec from to cs p) λ d d' h. >>=-ok _ h
  text-Codec (flag v) p = absurd p
  text-Codec (word v) p = absurd p
  text-Codec (wide_text cs) p = absurd p
  text-Codec (struct fs) p = absurd p

  pub wide_text-Codec :
      (e : Elem)
      → ElemOk wide_texts Nested e
      → Codec
          (λ s b. write_wide_text from s e b)
          (elem_end wide_texts nested e)
          (read_wide_text to (differs from to) accepts)
          e
  unfolding write_wide_text read_wide_text
  wide_text-Codec (wide_text cs) p =
      reader-Codec (u16string-Codec from to cs p.0 p.1) λ d d' h. >>=-ok _ h
  wide_text-Codec (flag v) p = absurd p
  wide_text-Codec (word v) p = absurd p
  wide_text-Codec (text cs) p = absurd p
  wide_text-Codec (struct fs) p = absurd p

  module _ {write : Bool → Fields → CdrBuffer → Result CdrBuffer}
      {read : CdrBuffer → Result (Fields × CdrBuffer)}
      (inner : (fs : Fields) → Nested fs → Codec (λ s b. write s fs b) (nested fs) read fs) where
    pub struct-Codec :
        (e : Elem)
        → ElemOk structs Nested e
        → Codec
            (λ s b. write_struct from s (write s) e b)
            (elem_end structs nested e)
            (read_struct to (differs from to) accepts read)
            e
    unfolding write_struct read_struct
    struct-Codec (struct fs) p = reader-Codec (inner fs p) λ d d' h. >>=-ok _ h
    struct-Codec (flag v) p = absurd p
    struct-Codec (word v) p = absurd p
    struct-Codec (text cs) p = absurd p
    struct-Codec (wide_text cs) p = absurd p
