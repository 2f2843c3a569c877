-- ===== src/Message/Spacing.antt =====
-- Where values end depends on where they begin: distances of 8 bytes and more are kept, since no
-- value is aligned to more than 8 bytes.
use rmw_gurumdds.Base.{ℕ, suc, ◌+◌, ◌≤◌, Bool, true, false, if◌then◌else◌, List, length, arith}
use rmw_gurumdds.Cdr.Words.{Width, w8, w16, w32, w64}
use rmw_gurumdds.Cdr.Buffer.{align_up}
use rmw_gurumdds.Cdr.Roundtrip.Words.{word_end}
use rmw_gurumdds.Cdr.Roundtrip.Strings.{string_end}
use rmw_gurumdds.Cdr.Roundtrip.Arrays.{elements_end, u16string_end}
use rmw_gurumdds.Message.Types.{
  Shape, is_sequence, member, Members, no_members, members, Elem, text, wide_text, struct, Elems,
  nil, cons, Fields, no_fields, fields, count,
}
use rmw_gurumdds.Message.Typing.{
  Group, flags, wchars, texts, wide_texts, structs, unknown, primitives, group, elem_end, each_end,
  size_end, copied_to, items_end, members_end,
}

abbrev pub Spaced : (ℕ → ℕ) → Type 0
Spaced f = (a b : ℕ) → a + 8 ≤ b → f a + 8 ≤ f b

pub Spaced-align_up : (w : Width) → Spaced (align_up w)
unfolding align_up
Spaced-align_up w8 a b h = omega arith
Spaced-align_up w16 a b h = omega arith
Spaced-align_up w32 a b h = omega arith
Spaced-align_up w64 a b h = omega arith

-- An alignment, and a number of bytes.
Spaced-elements_end : (w : Width) (n : ℕ) → Spaced (elements_end w n)
Spaced-elements_end w n a b h = omega (arith, Spaced-align_up w a b h)

Spaced-word_end : (w : Width) → Spaced (word_end w)
Spaced-word_end w a b h = omega (arith, Spaced-align_up w a b h)

Spaced-string_end : (cs : List ℕ) → Spaced (string_end cs)
Spaced-string_end cs a b h =
    omega (arith, Spaced-align_up w8 (word_end w32 a) (word_end w32 b) (Spaced-word_end w32 a b h))

Spaced-u16string_end : (cs : List ℕ) → Spaced (u16string_end cs)
Spaced-u16string_end cs a b h =
    Spaced-elements_end w16 (length cs) (word_end w32 a) (word_end w32 b)
      (Spaced-word_end w32 a b h)

Spaced-if : (c : Bool) {f g : ℕ → ℕ} → Spaced f → Spaced g → Spaced (λ o. if c then f o else g o)
Spaced-if true p q = p
Spaced-if false p q = q

Spaced-size_end : (sh : Shape) → Spaced (size_end sh)
Spaced-size_end sh = Spaced-if (is_sequence sh) (Spaced-word_end w32) (λ a b h. h)

module _ (nested : Fields → ℕ → ℕ) (inner : (fs : Fields) → Spaced (nested fs)) where
  Spaced-elem_end : (g : Group) (e : Elem) → Spaced (elem_end g nested e)
  Spaced-elem_end flags e = Spaced-word_end w8
  Spaced-elem_end (primitives w) e = Spaced-word_end w
  Spaced-elem_end wchars e = Spaced-word_end w16
  Spaced-elem_end texts (text cs) = Spaced-string_end cs
  Spaced-elem_end texts _ = λ a b h. h
  Spaced-elem_end wide_texts (wide_text cs) = Spaced-u16string_end cs
  Spaced-elem_end wide_texts _ = λ a b h. h
  Spaced-elem_end structs (struct fs) = inner fs
  Spaced-elem_end structs _ = λ a b h. h
  Spaced-elem_end unknown e = λ a b h. h

  Spaced-each_end : (g : Group) (es : Elems) → Spaced (each_end (elem_end g nested) es)
  Spaced-each_end g nil a b h = h
  Spaced-each_end g (cons e es) a b h =
      Spaced-each_end g es (elem_end g nested e a) (elem_end g nested e b)
        (Spaced-elem_end g e a b h)

  Spaced-copied_to : (w : Width) (es : Elems) → Spaced (copied_to w es)
  Spaced-copied_to w nil a b h = h
  Spaced-copied_to w (cons e es) a b h = Spaced-elements_end w (suc (count es)) a b h

  -- The two loops over the elements, behind the size of an array or at once.
  Spaced-loop :
      (g : Group) (sh : Shape) (es : Elems)
      → Spaced (λ o.
        if sh.is_array
        then each_end (elem_end g nested) es (size_end sh o)
        else each_end (elem_end g nested) es o)
  Spaced-loop g sh es =
      Spaced-if sh.is_array
        (λ a b h. Spaced-each_end g es (size_end sh a) (size_end sh b) (Spaced-size_end sh a b h))
        (Spaced-each_end g es)

  Spaced-items_end : (g : Group) (sh : Shape) (es : Elems) → Spaced (items_end g nested sh es)
  Spaced-items_end (primitives w) sh es =
      Spaced-if sh.is_array
        (λ a b h. Spaced-copied_to w es (size_end sh a) (size_end sh b) (Spaced-size_end sh a b h))
        (Spaced-each_end (primitives w) es)
  Spaced-items_end flags sh es = Spaced-loop flags sh es
  Spaced-items_end wchars sh es = Spaced-loop wchars sh es
  Spaced-items_end texts sh es = Spaced-loop texts sh es
  Spaced-items_end wide_texts sh es = Spaced-loop wide_texts sh es
  Spaced-items_end structs sh es = Spaced-loop structs sh es
  Spaced-items_end unknown sh es = Spaced-loop unknown sh es

pub Spaced-members_end : (ms : Members) (fs : Fields) → Spaced (members_end ms fs)
unfolding members_end
Spaced-members_end no_members fs a b h = h
Spaced-members_end (members (member t sh inner) ms) no_fields a b h = h
Spaced-members_end (members (member t sh inner) ms) (fields es fs) a b h =
    let items = items_end (group t) (members_end inner) sh es in
    Spaced-members_end ms fs (items a) (items b)
      (Spaced-items_end (members_end inner) (Spaced-members_end inner) (group t) sh es a b h)
