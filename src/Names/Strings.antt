-- ===== src/Names/Strings.antt =====
-- Prefixes and last occurrences in strings, for rmw_gurumdds_cpp/src/demangle.cpp.
use rmw_gurumdds.Base.{
  ℕ, ◌<◌, ◌≡◌, refl, ap, sym, ◌∙◌, arith, length, List, [], ◌∷◌, ◌++◌, ==_self, none, some,
}
use rmw_gurumdds.Names.{after_prefix, rfind}

pub after_prefix-append : (ps name : List ℕ) → after_prefix ps (ps ++ name) ≡ some name
unfolding after_prefix
after_prefix-append [] name = refl
after_prefix-append (p ∷ ps) name = rw (==_self p) (after_prefix-append ps name)

-- A string is no prefix of a shorter one.
after_prefix-short : (ps name : List ℕ) → length name < length ps → after_prefix ps name ≡ none
unfolding after_prefix
after_prefix-short [] name h = absurd (omega arith)
after_prefix-short (p ∷ ps) [] h = refl
after_prefix-short (p ∷ ps) (c ∷ name) h = ground (arith, after_prefix-short ps name (omega arith))

rfind-short : (suffix name : List ℕ) → length name < length suffix → rfind suffix name ≡ none
unfolding rfind
rfind-short [] name h = absurd (omega arith)
rfind-short (s ∷ suffix) [] h = refl
rfind-short (s ∷ suffix) (c ∷ name) h =
    rw (rfind-short (s ∷ suffix) name (omega arith), after_prefix-short (s ∷ suffix) (c ∷ name) h)
      refl

append-nil : (xs : List ℕ) → xs ++ [] ≡ xs
append-nil [] = refl
append-nil (x ∷ xs) = ap (λ ys. x ∷ ys) (append-nil xs)

-- The last occurrence of a suffix is the one at the end.
pub rfind-append :
    (name : List ℕ) (s : ℕ) (suffix : List ℕ)
    → rfind (s ∷ suffix) (name ++ s ∷ suffix) ≡ some (length name)
unfolding rfind
rfind-append [] s suffix =
    let whole : after_prefix (s ∷ suffix) (s ∷ suffix) ≡ some [] =
      ap (after_prefix (s ∷ suffix)) (sym (append-nil (s ∷ suffix)))
      ∙ after_prefix-append (s ∷ suffix) [] in
    rw (rfind-short (s ∷ suffix) suffix (omega arith), whole) refl
rfind-append (c ∷ name) s suffix = rw (rfind-append name s suffix) refl
