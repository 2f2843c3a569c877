-- ===== src/Cdr/Memory.antt =====
-- Byte memory, and how a word lies in it on a little-endian or a big-endian system
-- (rmw_gurumdds_cpp/include/rmw_gurumdds_cpp/cdr_buffer.hpp).
use rmw_gurumdds.Base.{
  ℕ, zero, suc, ◌+◌, ◌*◌, ◌/◌, ◌%◌, ◌^◌, ◌≤◌, ◌<◌, ◌≡◌, refl, ap, ap₂, ◌∙◌, List, [], ◌∷◌, arith,
  ◌==◌, if◌then◌else◌, length, length-append, All, All-reverse,
}
use mathlib.Core.List.{reverse, reverse-cons, reverse-reverse}
use native.Mathlib.Nat.{pow-suc, add-zero}

-- The byte at each address.
abbrev pub Mem : Type 0
Mem = ℕ → ℕ

-- CDR_BIG_ENDIAN and CDR_LITTLE_ENDIAN, the values of CDR_SYSTEM_ENDIAN.
pub data Endian : Type 0 where
  big little : Endian

-- `memcpy` into memory, byte by byte.
unfoldable pub store : Mem → ℕ → List ℕ → Mem
store m a [] = m
store m a (b ∷ bs) = store (λ x. if x == a then b else m x) (a + 1) bs

-- The `n` bytes from an address on.
unfoldable pub load : Mem → ℕ → ℕ → List ℕ
load m a zero = []
load m a (suc n) = m a ∷ load m (a + 1) n

-- The `k` bytes of a word, lowest first, and the word that bytes stand for.
unfoldable pub le_bytes : ℕ → ℕ → List ℕ
le_bytes zero v = []
le_bytes (suc k) v = (v % 256) ∷ le_bytes k (v / 256)

unfoldable pub le_value : List ℕ → ℕ
le_value [] = 0
le_value (b ∷ bs) = b + 256 * le_value bs

-- A word of `k` bytes as the system stores and reads it.
unfoldable pub word_bytes : Endian → ℕ → ℕ → List ℕ
word_bytes little k v = le_bytes k v
word_bytes big k v = reverse (le_bytes k v)

unfoldable pub word_value : Endian → List ℕ → ℕ
word_value little bs = le_value bs
word_value big bs = le_value (reverse bs)

pub store_below : (m : Mem) (a : ℕ) (bs : List ℕ) (x : ℕ) → x < a → store m a bs x ≡ m x
unfolding store
store_below m a [] x h = refl
store_below m a (b ∷ bs) x h =
    ground (arith, store_below (λ y. if y == a then b else m y) (a + 1) bs x)

pub store_above : (m : Mem) (a : ℕ) (bs : List ℕ) (x : ℕ) → a + length bs ≤ x → store m a bs x ≡ m x
unfolding store
store_above m a [] x h = refl
store_above m a (b ∷ bs) x h =
    ground (arith, store_above (λ y. if y == a then b else m y) (a + 1) bs x)

-- What was stored is what a load from a copy finds, wherever the copy lies.
pub load-store :
    (m m' : Mem) (a a' : ℕ) (bs : List ℕ)
    → ((i : ℕ) → i < length bs → m' (a' + i) ≡ store m a bs (a + i))
    → load m' a' (length bs) ≡ bs
unfolding store load
load-store m m' a a' [] h = refl
load-store m m' a a' (b ∷ bs) h =
    let m₁ : Mem = λ y. if y == a then b else m y in
    let first : m' a' ≡ store m₁ (a + 1) bs a =
      rw (add-zero a', add-zero a) at (h 0 (omega arith)) in
    let rest : (i : ℕ) → i < length bs → m' (a' + 1 + i) ≡ store m₁ (a + 1) bs (a + 1 + i) =
      λ i p. rw (one_more a' i, one_more a i) (h (suc i) (omega arith)) in
    ap₂ ◌∷◌ (first ∙ store_below m₁ (a + 1) bs a (omega arith) ∙ ground arith)
      (load-store m₁ m' (a + 1) (a' + 1) bs rest)
  where
    one_more : (x i : ℕ) → x + 1 + i ≡ x + suc i
    one_more x i = omega arith

pub length-le_bytes : (k v : ℕ) → length (le_bytes k v) ≡ k
unfolding le_bytes
length-le_bytes zero v = refl
length-le_bytes (suc k) v = ap suc (length-le_bytes k (v / 256))

pub le_value-le_bytes : (k v : ℕ) → v < 256 ^ k → le_value (le_bytes k v) ≡ v
unfolding le_bytes le_value
le_value-le_bytes zero v h = omega arith
le_value-le_bytes (suc k) v h =
    omega (arith, le_value-le_bytes k (v / 256) (omega (arith, pow-suc 256 k)))

length-reverse : (xs : List ℕ) → length (reverse xs) ≡ length xs
length-reverse [] = refl
length-reverse (x ∷ xs) =
    rw reverse-cons (omega (arith, length-append (reverse xs) (x ∷ []), length-reverse xs))

pub length-word_bytes : (e : Endian) (k v : ℕ) → length (word_bytes e k v) ≡ k
unfolding word_bytes
length-word_bytes little k v = length-le_bytes k v
length-word_bytes big k v = length-reverse (le_bytes k v) ∙ length-le_bytes k v

pub word_value-word_bytes :
    (e : Endian) (k v : ℕ) → v < 256 ^ k → word_value e (word_bytes e k v) ≡ v
unfolding word_value word_bytes
word_value-word_bytes little k v h = le_value-le_bytes k v h
word_value-word_bytes big k v h = rw reverse-reverse (le_value-le_bytes k v h)

-- A list of bytes.
abbrev pub IsBytes : List ℕ → Type 0
IsBytes bs = All (λ b. b < 256) bs

le_value_fits : (bs : List ℕ) → IsBytes bs → le_value bs < 256 ^ length bs
unfolding le_value
le_value_fits [] h = omega arith
le_value_fits (b ∷ bs) h = omega (arith, pow-suc 256 (length bs), le_value_fits bs h.1, h.0)

le_bytes-le_value : (bs : List ℕ) → IsBytes bs → le_bytes (length bs) (le_value bs) ≡ bs
unfolding le_bytes le_value
le_bytes-le_value [] h = refl
le_bytes-le_value (b ∷ bs) h =
    let rest : (b + 256 * le_value bs) / 256 ≡ le_value bs = omega (arith, h.0) in
    ap₂ ◌∷◌ (omega (arith, h.0)) (rw rest (le_bytes-le_value bs h.1))

pub word_value_fits : (e : Endian) (bs : List ℕ) → IsBytes bs → word_value e bs < 256 ^ length bs
unfolding word_value
word_value_fits little bs h = le_value_fits bs h
word_value_fits big bs h =
    rw (length-reverse bs) at (le_value_fits (reverse bs) (All-reverse _ bs h))

-- Bytes that are read as a word are what the word is stored as.
pub word_bytes-word_value :
    (e : Endian) (bs : List ℕ) → IsBytes bs → word_bytes e (length bs) (word_value e bs) ≡ bs
unfolding word_bytes word_value
word_bytes-word_value little bs h = le_bytes-le_value bs h
word_bytes-word_value big bs h =
    let back = rw (length-reverse bs) at (le_bytes-le_value (reverse bs) (All-reverse _ bs h)) in
    ap reverse back ∙ reverse-reverse bs
