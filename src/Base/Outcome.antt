-- ===== src/Base/Outcome.antt =====
-- Results of code that may throw. One constructor of `Error` for each message that is thrown.
use mathlib.Core.Path.{◌≡◌, refl, sym, ◌∙◌}

-- `ill_typed` is no exception of the program: a value that does not have the layout that its
-- description names, which the C++ code would read as arbitrary memory. `resize_refused` is what a container outside this
-- repository throws when it is resized beyond its bound.
pub data Error : Type 0 where
  buf_is_null insufficient_buffer_size out_of_buffer not_null_terminated unreachable_type : Error
  ill_typed resize_refused : Error

pub data Result {ℓ} (A : Type ℓ) : Type ℓ where
  ok : A → Result A
  err : Error → Result A

infixl 5 ◌>>=◌
abbrev pub ◌>>=◌ {ℓ κ} : {A : Type ℓ} {B : Type κ} → Result A → (A → Result B) → Result B
ok a >>= f = f a
err e >>= f = err e

pub >>=-ok {ℓ κ} :
    {A : Type ℓ} {B : Type κ} {m : Result A} {a : A} (f : A → Result B) → m ≡ ok a → (m >>= f) ≡ f a
>>=-ok f h = rw h

pub >>=-err {ℓ κ} :
    {A : Type ℓ} {B : Type κ} {m : Result A} {e : Error} (f : A → Result B)
    → m ≡ err e
    → (m >>= f) ≡ err e
>>=-err f h = rw h

pub >>=-assoc {ℓ κ μ} :
    {A : Type ℓ} {B : Type κ} {C : Type μ} (m : Result A) (f : A → Result B) (g : B → Result C)
    → ((m >>= f) >>= g) ≡ (m >>= λ a. f a >>= g)
>>=-assoc (ok a) f g = refl
>>=-assoc (err e) f g = refl

-- What follows the last step of a chain that succeeded.
pub >>=-after {ℓ κ μ} :
    {A : Type ℓ} {B : Type κ} {C : Type μ} (m : Result A) (f : A → Result B) (g : B → Result C)
    {b : B}
    → (m >>= f) ≡ ok b
    → (m >>= λ a. f a >>= g) ≡ g b
>>=-after m f g h = sym (>>=-assoc m f g) ∙ >>=-ok g h
