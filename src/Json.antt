-- ===== src/Json.antt =====
-- The JSON library that src/net/network/nwEvents.cpp uses (nlohmann), which is not part of the
-- repository: its values are a parameter with the operations that the code calls, and what the code
-- relies on is the record of laws.
pub mod Packed
use package.go_game.Prelude.{
  ℕ, ◌+◌, ◌*◌, ◌^◌, ◌%◌, ◌/◌, ◌<◌, ◌≡◌, ◌≢◌, Bool, true, false, not, ◌&&◌, ◌==◌, ltb, Option, none,
  some, List, [], ◌∷◌, if◌then◌else◌,
}
use package.go_game.Net.{Text}

abbrev pub same_text : Text → Text → Bool
same_text [] [] = true
same_text [] (d ∷ t) = false
same_text (c ∷ s) [] = false
same_text (c ∷ s) (d ∷ t) = c == d && same_text s t

-- The member that the assignments `j[k] = v`, made in this order, leave under a key.
abbrev pub find_member {ℓ} : {V : Type ℓ} → Text → List (Text × V) → Option V
find_member k [] = none
find_member k ((k', v) ∷ rest) = elim (find_member k rest) [
  | some w ↦ some w
  | none ↦ if same_text k k' then some v else none
]

-- A reading that tests the type of a value first is `none` where the test fails: `find` is `contains`
-- and `[]`, `string_of` is `is_string` and `get`, and so on. A `double` is its 64 bits.
pub record Json : Type 1 where
  pub Value : Type 0
  pub parse : Text → Option Value
  pub dump : Value → Option Text
  pub object : List (Text × Value) → Value
  pub array : List Value → Value
  pub from_unsigned : ℕ → Value
  pub from_string : Text → Value
  pub from_double : ℕ → Value
  pub is_object : Value → Bool
  pub find : Value → Text → Option Value
  pub elements : Value → Option (List Value)
  pub string_of : Value → Option Text
  pub unsigned_of : Value → Option ℕ
  pub double_of : Value → Option ℕ
  -- What `dump` can write: text in UTF-8, and values that are made of it and of finite numbers.
  pub IsUtf8 : Text → Type 0
  pub IsPlain : Value → Type 0

abbrev pub is_ascii : Text → Bool
is_ascii [] = true
is_ascii (c ∷ t) = ltb c 128 && is_ascii t

-- The exponent of a `double` that is infinite or no number is all ones.
abbrev pub is_finite : ℕ → Bool
is_finite bits = not (bits / 2 ^ 52 % 2 ^ 11 == 2047)

abbrev pub u64_mod : ℕ
u64_mod = 2 ^ 64

module _ (J : Json) where
  abbrev pub PlainMembers : List (Text × J.Value) → Type 0
  PlainMembers [] = Unit
  PlainMembers ((k, v) ∷ rest) = J.IsUtf8 k × J.IsPlain v × PlainMembers rest

  abbrev pub PlainElements : List J.Value → Type 0
  PlainElements [] = Unit
  PlainElements (v ∷ rest) = J.IsPlain v × PlainElements rest

-- What is written is read back.
pub record Reads (J : Json) (v : J.Value) : Type 0 where
  pub text : Text
  pub dumps : J.dump v ≡ some text
  pub parses : J.parse text ≡ some v
  pub some_text : text ≢ []

pub record IsLawful (J : Json) : Type 0 where
  pub is_object-object :
      (m : Text × J.Value) (ms : List (Text × J.Value)) → J.is_object (J.object (m ∷ ms)) ≡ true
  pub find-object :
      (ms : List (Text × J.Value)) (k : Text) → J.find (J.object ms) k ≡ find_member k ms
  pub elements-array : (vs : List J.Value) → J.elements (J.array vs) ≡ some vs
  pub string_of-from_string : (s : Text) → J.string_of (J.from_string s) ≡ some s
  pub unsigned_of-from_unsigned : (n : ℕ) → n < u64_mod → J.unsigned_of (J.from_unsigned n) ≡ some n
  pub double_of-from_double : (d : ℕ) → J.double_of (J.from_double d) ≡ some d
  pub utf8_of_ascii : (s : Text) → is_ascii s ≡ true → J.IsUtf8 s
  pub plain-object : (ms : List (Text × J.Value)) → PlainMembers J ms → J.IsPlain (J.object ms)
  pub plain-array : (vs : List J.Value) → PlainElements J vs → J.IsPlain (J.array vs)
  pub plain-unsigned : (n : ℕ) → n < u64_mod → J.IsPlain (J.from_unsigned n)
  pub plain-string : (s : Text) → J.IsUtf8 s → J.IsPlain (J.from_string s)
  pub plain-double : (d : ℕ) → is_finite d ≡ true → J.IsPlain (J.from_double d)
  pub reads : (v : J.Value) → J.IsPlain v → Reads J v
  pub parse-empty : J.parse [] ≡ none
