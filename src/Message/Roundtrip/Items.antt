-- ===== src/Message/Roundtrip/Items.antt =====
-- Members whose elements are written one by one.
use rmw_gurumdds.Base.{
  ℕ, ◌^◌, ◌<◌, ◌≡◌, refl, ◌∙◌, Bool, true, if◌then◌else◌, Result, ok, ◌>>=◌, >>=-ok,
}
use rmw_gurumdds.Cdr.Memory.{Endian}
use rmw_gurumdds.Cdr.Words.{w32, differs}
use rmw_gurumdds.Cdr.Buffer.{CdrBuffer}
use rmw_gurumdds.Cdr.Codec.{Codec}
use rmw_gurumdds.Cdr.Codec.Steps.{pure-Codec}
use rmw_gurumdds.Cdr.Codec.Bind.{bind-Codec}
use rmw_gurumdds.Cdr.Codec.Align.{reader-Codec, if-Codec, if_true, if_false}
use rmw_gurumdds.Cdr.Roundtrip.Words.{word-Codec}
use rmw_gurumdds.Message.Types.{Shape, is_sequence, Elem, Elems, nil, cons, count}
use rmw_gurumdds.Message.Serialize.{write_items, write_size, serialize_each}
use rmw_gurumdds.Message.Deserialize.{read_items, read_size, read_each}
use rmw_gurumdds.Message.Typing.{EachOk, each_end, size_end}
use mathlib.Core.Path.{subst}
use native.Mathlib.Nat.{mod-eq_of_lt}

module _ (from to : Endian) (accepts : Shape → ℕ → Bool) where
  pub size-Codec :
      (sh : Shape) (n : ℕ)
      → n < 2 ^ 32
      → (if is_sequence sh then (accepts sh n ≡ true) else (n ≡ sh.array_size))
      → Codec
          (λ s b. write_size from s sh n b)
          (size_end sh)
          (read_size to (differs from to) accepts sh)
          n
  unfolding write_size read_size
  size-Codec sh n small h =
      if-Codec (is_sequence sh)
        (λ seq.
          reader-Codec (word-Codec from to w32 n small)
            (λ d d' r. >>=-ok _ r ∙ rw (if_true _ _ (is_sequence sh) seq h) refl))
        (λ fixed. rw (← if_false _ _ (is_sequence sh) fixed h) (pure-Codec n))

module _ {P : Elem → Type 0} {write : Bool → Elem → CdrBuffer → Result CdrBuffer}
    {end : Elem → ℕ → ℕ} {read : CdrBuffer → Result (Elem × CdrBuffer)}
    (each : (e : Elem) → P e → Codec (λ s b. write s e b) (end e) read e) where
  pub items-Codec :
      (es : Elems)
      → EachOk P es
      → Codec
          (λ s b. write_items (write s) (count es) es b)
          (each_end end es)
          (read_items read (count es))
          es
  unfolding write_items read_items count
  items-Codec nil p = pure-Codec nil
  items-Codec (cons e es) p =
      bind-Codec (λ x d. read_items read (count es) d >>= λ q. ok (cons x q.0, q.1)) (each e p.0)
        (reader-Codec (items-Codec es p.1) (λ d d' h. >>=-ok _ h))

  -- A member that is no array has its one element.
  pub counted :
      {es : Elems} {n : ℕ}
      → count es ≡ n
      → Codec
          (λ s b. write_items (write s) (count es) es b)
          (each_end end es)
          (read_items read (count es))
          es
      → Codec (λ s b. write_items (write s) n es b) (each_end end es) (read_items read n) es
  counted {es} e c =
      subst
        (λ (n : ℕ).
          Codec (λ s b. write_items (write s) n es b) (each_end end es) (read_items read n) es)
        e c

  abbrev pub each_or_one : Shape → Elems → ℕ → ℕ
  each_or_one sh es o = if sh.is_array then each_end end es (size_end sh o) else each_end end es o

  pub each-Codec :
      (from to : Endian) (accepts : Shape → ℕ → Bool) (sh : Shape) (es : Elems)
      → count es < 2 ^ 32
      → (if sh.is_array
          then (if is_sequence sh
              then (accepts sh (count es) ≡ true)
              else (count es ≡ sh.array_size))
          else (count es ≡ 1))
      → EachOk P es
      → Codec
          (λ s b. serialize_each from s (write s) sh es b)
          (each_or_one sh es)
          (read_each to (differs from to) accepts read sh)
          es
  unfolding serialize_each read_each
  each-Codec from to accepts sh es small h p = rw (mod-eq_of_lt small) (
      if-Codec sh.is_array
        (λ arr.
          bind-Codec (read_items read)
            (size-Codec from to accepts sh (count es) small (if_true _ _ sh.is_array arr h))
            (items-Codec es p))
        (λ one.
          let single : count es ≡ 1 = if_false _ _ sh.is_array one h in
          counted single (items-Codec es p)))
