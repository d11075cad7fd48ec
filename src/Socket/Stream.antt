-- ===== src/Socket/Stream.antt =====
-- Sockets that are lists of bytes, to show that the laws of a stream can be met.
use go_game.Prelude.{
  ℕ, zero, suc, ◌<◌, ◌≡◌, refl, ap, ◌∙◌, sym, true, Option, none, some, [], ◌∷◌, ◌++◌, length,
  arith,
}
use mathlib.Core.Option.{some-injective}
use go_game.Net.{Text}
use go_game.Socket.{Socket, IsStream}

abbrev prepend : ℕ → Option Text × Text → Option Text × Text
prepend c (none, t) = (none, t)
prepend c (some s, t) = (some (c ∷ s), t)

-- The first `n` bytes, if there are as many.
abbrev take_bytes : ℕ → Text → Option Text × Text
take_bytes zero t = (some [], t)
take_bytes (suc n) [] = (none, [])
take_bytes (suc n) (c ∷ t) = prepend c (take_bytes n t)

take_bytes-append : (s t : Text) → take_bytes (length s) (s ++ t) ≡ (some s, t)
take_bytes-append [] t = refl
take_bytes-append (c ∷ s) t = ap (prepend c) (take_bytes-append s t)

take_bytes-short : (s : Text) (n : ℕ) → length s < n → (t : Text) × (take_bytes n s ≡ (none, t))
take_bytes-short s zero h = absurd (omega arith)
take_bytes-short [] (suc n) h = ([], refl)
take_bytes-short (c ∷ s) (suc n) h =
    let (t, short) = take_bytes-short s n (omega arith) in (t, ap (prepend c) short)

prepend-some :
    (c : ℕ) (r : Option Text × Text) (s : Text)
    → (prepend c r).0 ≡ some s
    → (s' : Text) × (r.0 ≡ some s') × (s ≡ c ∷ s')
prepend-some c (none, t) s e = absurd (cc e)
prepend-some c (some s', t) s e = (s', refl, sym (some-injective _ _ e))

length-take_bytes : (t : Text) (n : ℕ) (s : Text) → (take_bytes n t).0 ≡ some s → length s ≡ n
length-take_bytes t zero s e = rw (← some-injective _ _ e) refl
length-take_bytes [] (suc n) s e = absurd (cc e)
length-take_bytes (c ∷ t) (suc n) s e =
    let (s', found, cons) = prepend-some c (take_bytes n t) s e in
    rw (cons, length-take_bytes t n s' found) refl

abbrev pub bytes : Socket
bytes = record {
  Handle = Text;
  connect = λ host port h. (true, h);
  close = λ h. [];
  read = take_bytes;
  write = λ s h. (true, h);
  Incoming = λ h s. h ≡ s;
}

pub bytes-IsStream : IsStream bytes
bytes-IsStream = record {
  read-full = λ h s t e. (t, ap (take_bytes (length s)) e ∙ take_bytes-append s t, refl);
  read-short = λ h s n e short.
      let (t, none') = take_bytes-short s n short in (t, ap (take_bytes n) e ∙ none');
  length-read = λ h h' s n e. length-take_bytes h n s (ap (λ (r : Option Text × Text). r.0) e);
  closed = λ h. refl;
}
