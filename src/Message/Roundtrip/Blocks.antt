-- ===== src/Message/Roundtrip/Blocks.antt =====
-- Arrays that are copied as blocks, and Boolean members.
use rmw_gurumdds.Base.{
  ℕ, zero, suc, ◌^◌, ◌<◌, ◌≡◌, refl, ◌∙◌, Bool, true, false, if◌then◌else◌, List, [], ◌∷◌, take,
  length, All, some, ok, >>=-ok, arith, ap,
}
use mathlib.Core.Option
use mathlib.Core.Path.{subst, fun_ext}
use rmw_gurumdds.Cdr.Memory.{Endian}
use rmw_gurumdds.Cdr.Words.{Width, w32, differs}
use rmw_gurumdds.Cdr.Codec.{Codec}
use rmw_gurumdds.Cdr.Codec.Steps.{pure-Codec}
use rmw_gurumdds.Cdr.Codec.Bind.{bind-Codec}
use rmw_gurumdds.Cdr.Codec.Align.{reader-Codec, if-Codec, if_true, if_false}
use rmw_gurumdds.Cdr.Write.{copy_arr_to}
use rmw_gurumdds.Cdr.Roundtrip.Words.{word-Codec}
use rmw_gurumdds.Cdr.Roundtrip.Arrays.{Fits, CanCopy, copied_end, copy_arr-Codec}
use rmw_gurumdds.Message.Types.{
  Shape, is_sequence, flag, word, text, wide_text, struct, Elems, nil, cons, Fields, count, words,
  of_words,
}
use rmw_gurumdds.Message.Serialize.{write_size, serialize_boolean, serialize_primitive, copy_words}
use rmw_gurumdds.Message.Deserialize.{
  read_items, read_boolean_size, read_flag, read_boolean, read_primitive, read_words,
}
use rmw_gurumdds.Message.Typing.{
  primitives, flags, ElemOk, EachOk, size_end, copied_to, items_end, CountOk, GroupOk,
}
use rmw_gurumdds.Message.Roundtrip.Items.{items-Codec, size-Codec, counted}
use rmw_gurumdds.Message.Roundtrip.Elements.{flag-Codec, primitive-Codec}
use native.Mathlib.Nat.{mod-eq_of_lt}

-- The words of a well-typed array.
word_list :
    (w : Width) (Nested : Fields → Type 0) (es : Elems)
    → EachOk (ElemOk (primitives w) Nested) es
    → List ℕ
word_list w N nil p = []
word_list w N (cons (word v) es) p = v ∷ word_list w N es p.1
word_list w N (cons (flag v) es) p = absurd p.0
word_list w N (cons (text v) es) p = absurd p.0
word_list w N (cons (wide_text v) es) p = absurd p.0
word_list w N (cons (struct v) es) p = absurd p.0

record AreWords (w : Width) (es : Elems) : Type 0 where
  list : List ℕ
  found : words es ≡ some list
  back : of_words list ≡ es
  size : length list ≡ count es
  fit : All (Fits w) list
  ends : (o : ℕ) → copied_end w list o ≡ copied_to w es o

are_words :
    (w : Width) (Nested : Fields → Type 0) (es : Elems)
    → EachOk (ElemOk (primitives w) Nested) es
    → AreWords w es
unfolding words of_words count
are_words w N nil p = record {
  list = [];
  found = refl;
  back = refl;
  size = refl;
  fit = tt;
  ends = λ o. refl;
}
are_words w N (cons (word v) es) p =
    let r = are_words w N es p.1 in
    record {
      list = v ∷ r.list;
      found = rw r.found refl;
      back = ap (cons (word v)) r.back;
      size = ap suc r.size;
      fit = (p.0, r.fit);
      ends = λ o. rw r.size refl;
    }
are_words w N (cons (flag v) es) p = absurd p.0
are_words w N (cons (text v) es) p = absurd p.0
are_words w N (cons (wide_text v) es) p = absurd p.0
are_words w N (cons (struct v) es) p = absurd p.0

take_all : (n : ℕ) (xs : List ℕ) → length xs ≡ n → take n xs ≡ xs
take_all zero [] e = refl
take_all zero (x ∷ xs) e = absurd (omega arith)
take_all (suc n) [] e = refl
take_all (suc n) (x ∷ xs) e = ap (λ t. x ∷ t) (take_all n xs (omega arith))

module _ (from to : Endian) (accepts : Shape → ℕ → Bool) (Nested : Fields → Type 0)
    (nested : Fields → ℕ → ℕ) where
  block-Codec :
      (w : Width) (es : Elems)
      → CanCopy from to w
      → count es < 2 ^ 32
      → EachOk (ElemOk (primitives w) Nested) es
      → Codec
          (λ s b. copy_words from s w (Option.map (take (count es)) (words es)) b)
          (copied_to w es)
          (read_words to (differs from to) accepts w (count es))
          es
  unfolding copy_words read_words
  block-Codec w es can small p =
      let r = are_words w Nested es p in
      let c : Codec (λ s b. copy_arr_to from s w r.list b) (copied_end w r.list)
          (read_words to (differs from to) accepts w (count es)) es =
        reader-Codec (copy_arr-Codec from to w can r.list r.fit (rw r.size small))
          λ d d' h. rw (← r.size) (>>=-ok _ h) ∙ ap (λ (x : Elems). ok (x, d')) r.back in
      rw (r.found, take_all (count es) r.list r.size)
        (subst
          (λ f.
            Codec (λ s b. copy_arr_to from s w r.list b) f
              (read_words to (differs from to) accepts w (count es)) es)
          (fun_ext r.ends) c)

  pub primitives-Codec :
      (w : Width) (sh : Shape) (es : Elems)
      → GroupOk from to (primitives w) sh
      → CountOk accepts (primitives w) sh (count es)
      → EachOk (ElemOk (primitives w) Nested) es
      → Codec
          (λ s b. serialize_primitive from s w sh es b)
          (items_end (primitives w) nested sh es)
          (read_primitive to (differs from to) accepts w sh)
          es
  unfolding serialize_primitive read_primitive
  primitives-Codec w sh es can h p = rw (mod-eq_of_lt h.0) (
      if-Codec sh.is_array
        (λ arr.
          bind-Codec (read_words to (differs from to) accepts w)
            (size-Codec from to accepts sh (count es) h.0 (if_true _ _ sh.is_array arr h.1))
            (block-Codec w es (if_true _ _ sh.is_array arr can) h.0 p))
        (λ one.
          let each = primitive-Codec from to accepts Nested nested w in
          counted each (if_false _ _ sh.is_array one h.1) (items-Codec each es p)))

  -- A sequence of `bool` is resized without a bound.
  boolean_size-Codec :
      (sh : Shape) (n : ℕ)
      → n < 2 ^ 32
      → (if is_sequence sh then Unit {0} else (n ≡ sh.array_size))
      → Codec
          (λ s b. write_size from s sh n b)
          (size_end sh)
          (read_boolean_size to (differs from to) accepts sh)
          n
  unfolding write_size read_boolean_size
  boolean_size-Codec sh n small h =
      if-Codec (is_sequence sh) (λ seq. word-Codec from to w32 n small)
        (λ fixed. rw (← if_false _ _ (is_sequence sh) fixed h) (pure-Codec n))

  pub flags-Codec :
      (sh : Shape) (es : Elems)
      → CountOk accepts flags sh (count es)
      → EachOk (ElemOk flags Nested) es
      → Codec
          (λ s b. serialize_boolean from s sh es b)
          (items_end flags nested sh es)
          (read_boolean to (differs from to) accepts sh)
          es
  unfolding serialize_boolean read_boolean
  flags-Codec sh es h p =
      let each = flag-Codec from to accepts Nested nested in
      rw (mod-eq_of_lt h.0, if_same (is_sequence sh) (count es))
        (if-Codec sh.is_array
          (λ arr.
            bind-Codec (read_items (read_flag to (differs from to) accepts))
              (boolean_size-Codec sh (count es) h.0 (if_true _ _ sh.is_array arr h.1))
              (items-Codec each es p))
          (λ one. counted each (if_false _ _ sh.is_array one h.1) (items-Codec each es p)))
    where
      if_same : (c : Bool) (n : ℕ) → (if c then n else n) ≡ n
      if_same true n = refl
      if_same false n = refl
