-- ===== src/Json/Packed.antt =====
-- A lawful library of JSON values, to show that the laws can be met: a value is a list of numbers, whose
-- first says what it is, and the parts of an array or an object are packed with their lengths.
use go_game.Prelude.{
  ℕ, zero, suc, ◌+◌, ◌<◌, ◌≡◌, refl, ap, ◌∙◌, length-append, Bool, true, false, ◌==◌, Option, none,
  some, ◌>>=◌, arith, List, [], ◌∷◌, ◌++◌, length, if◌then◌else◌,
}
use go_game.Net.{Text}
use go_game.Json.{Json, IsLawful, find_member}

-- The first `n` of a list, and the rest.
abbrev split : ℕ → Text → Text × Text
split zero t = ([], t)
split (suc n) [] = ([], [])
split (suc n) (c ∷ t) = let (a, b) = split n t in (c ∷ a, b)

split-append : (s t : Text) → split (length s) (s ++ t) ≡ (s, t)
split-append [] t = refl
split-append (c ∷ s) t = rw (split-append s t) refl

abbrev pack : List Text → Text
pack [] = []
pack (s ∷ ss) = length s ∷ (s ++ pack ss)

abbrev unpack : ℕ → Text → List Text
unpack zero t = []
unpack (suc fuel) [] = []
unpack (suc fuel) (n ∷ t) = let (a, b) = split n t in a ∷ unpack fuel b

unpack-pack : (ss : List Text) (fuel : ℕ) → length ss < fuel → unpack fuel (pack ss) ≡ ss
unpack-pack [] zero h = absurd (omega arith)
unpack-pack [] (suc fuel) h = refl
unpack-pack (s ∷ ss) zero h = absurd (omega arith)
unpack-pack (s ∷ ss) (suc fuel) h =
    rw (split-append s (pack ss), unpack-pack ss fuel (omega arith)) refl

length-pack : (ss : List Text) → length ss < length (pack ss) + 1
length-pack [] = omega arith
length-pack (s ∷ ss) = omega (arith, length-pack ss, length-append s (pack ss))

abbrev unpack_all : Text → List Text
unpack_all t = unpack (length t + 1) t

unpack_all-pack : (ss : List Text) → unpack_all (pack ss) ≡ ss
unpack_all-pack ss = unpack-pack ss (length (pack ss) + 1) (length-pack ss)

abbrev flatten : List (Text × Text) → List Text
flatten [] = []
flatten ((k, v) ∷ ms) = k ∷ v ∷ flatten ms

abbrev pairs : List Text → List (Text × Text)
pairs [] = []
pairs (k ∷ []) = []
pairs (k ∷ v ∷ rest) = (k, v) ∷ pairs rest

pairs-flatten : (ms : List (Text × Text)) → pairs (flatten ms) ≡ ms
pairs-flatten [] = refl
pairs-flatten ((k, v) ∷ ms) = ap (λ (r : List (Text × Text)). (k, v) ∷ r) (pairs-flatten ms)

-- The mark, if it is the expected one, and what follows it.
abbrev marked : ℕ → Text → Option Text
marked n [] = none
marked n (c ∷ t) = if c == n then some t else none

abbrev single : Text → Option ℕ
single [] = none
single (n ∷ t) = some n

abbrev is_some {ℓ} : {A : Type ℓ} → Option A → Bool
is_some none = false
is_some (some a) = true

abbrev pub packed : Json
packed = record {
  Value = Text;
  parse = marked 9;
  dump = λ v. some (9 ∷ v);
  object = λ ms. 3 ∷ pack (flatten ms);
  array = λ vs. 2 ∷ pack vs;
  from_unsigned = λ n. 0 ∷ n ∷ [];
  from_string = λ s. 1 ∷ s;
  from_double = λ d. 4 ∷ d ∷ [];
  is_object = λ v. is_some (marked 3 v);
  find = λ v k. marked 3 v >>= λ t. find_member k (pairs (unpack_all t));
  elements = λ v. marked 2 v >>= λ t. some (unpack_all t);
  string_of = marked 1;
  unsigned_of = λ v. marked 0 v >>= single;
  double_of = λ v. marked 4 v >>= single;
  IsUtf8 = λ s. Unit;
  IsPlain = λ v. Unit;
}

pub packed-IsLawful : IsLawful packed
packed-IsLawful = record {
  is_object-object = λ m ms. refl;
  find-object =
      λ ms k. ap (find_member k) (ap pairs (unpack_all-pack (flatten ms)) ∙ pairs-flatten ms);
  elements-array = λ vs. ap some (unpack_all-pack vs);
  string_of-from_string = λ s. refl;
  unsigned_of-from_unsigned = λ n h. refl;
  double_of-from_double = λ d. refl;
  utf8_of_ascii = λ s e. tt;
  plain-object = λ ms p. tt;
  plain-array = λ vs p. tt;
  plain-unsigned = λ n h. tt;
  plain-string = λ s u. tt;
  plain-double = λ d f. tt;
  reads = λ v p. record { text = 9 ∷ v; dumps = refl; parses = refl; some_text = λ e. cc e };
  parse-empty = refl;
}
