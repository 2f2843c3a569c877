-- ===== src/Message/Types.antt =====
-- The description of a message by `MessageMembers`, and its values. The introspection headers
-- are no part of the repository; what the converters read of them is declared here.
use rmw_gurumdds.Base.{ℕ, suc, Bool, List, [], ◌∷◌, Option, none, some, ◌||◌, ◌==◌}

-- `type_id_`. `other` stands for a value that the converters do not know.
pub data TypeId : Type 0 where
  boolean char octet uint8 int8 uint16 int16 float uint32 int32 double uint64 int64 : TypeId
  wchar string wstring message other : TypeId

-- `is_array_`, `array_size_` and `is_upper_bound_` of a member.
pub record Shape : Type 0 where
  pub is_array : Bool
  pub array_size : ℕ
  pub is_upper_bound : Bool

-- `!member->array_size_ || member->is_upper_bound_`
abbrev pub is_sequence : Shape → Bool
is_sequence sh = sh.array_size == 0 || sh.is_upper_bound

-- `members_` of a member describes the elements of a nested message.
mutual
  pub data Member : Type 0 where
    member : TypeId → Shape → Members → Member

  pub data Members : Type 0 where
    no_members : Members
    members : Member → Members → Members

-- The contents of one member are its elements, one where the member is no array. A word is the
-- bit pattern of an integer, a floating-point number or a wide character.
mutual
  pub data Elem : Type 0 where
    flag : Bool → Elem
    word : ℕ → Elem
    text : List ℕ → Elem
    wide_text : List ℕ → Elem
    struct : Fields → Elem

  pub data Elems : Type 0 where
    nil : Elems
    cons : Elem → Elems → Elems

  pub data Fields : Type 0 where
    no_fields : Fields
    fields : Elems → Fields → Fields

unfoldable pub count : Elems → ℕ
count nil = 0
count (cons e es) = suc (count es)

word_cons : Elem → Option (List ℕ) → Option (List ℕ)
word_cons (word v) (some vs) = some (v ∷ vs)
word_cons (word v) none = none
word_cons _ _ = none

-- The words of a contiguous array.
unfoldable pub words : Elems → Option (List ℕ)
unfolding word_cons
words nil = some []
words (cons e es) = word_cons e (words es)

unfoldable pub of_words : List ℕ → Elems
of_words [] = nil
of_words (v ∷ vs) = cons (word v) (of_words vs)
