-- ===== src/Socket.antt =====
-- The sockets that src/net/core/tcpClient.cpp uses (asio), which are not part of the repository: a
-- socket is a parameter with the calls that the code makes, and what the code relies on is the record
-- of laws.
pub mod Stream
use package.go_game.Prelude.{
  ℕ, ◌+◌, ◌<◌, ◌≡◌, Bool, true, false, Option, none, some, List, [], ◌∷◌, ◌++◌, length,
}
use package.go_game.Net.{Text}

-- An error code and an exception are the same failure: `false` or `none`. `read` reads a number of
-- bytes in full, `write` writes all of them.
pub record Socket : Type 1 where
  pub Handle : Type 0
  pub connect : Text → ℕ → Handle → Bool × Handle
  pub close : Handle → Handle
  pub read : ℕ → Handle → Option Text × Handle
  pub write : Text → Handle → Bool × Handle
  -- The bytes that are still to arrive before the end of the stream.
  pub Incoming : Handle → Text → Type 0

pub record IsStream (S : Socket) : Type 0 where
  pub read-full :
      (h : S.Handle) (s t : Text)
      → S.Incoming h (s ++ t)
      → (h' : S.Handle) × (S.read (length s) h ≡ (some s, h')) × S.Incoming h' t
  pub read-short :
      (h : S.Handle) (s : Text) (n : ℕ)
      → S.Incoming h s
      → length s < n
      → (h' : S.Handle) × (S.read n h ≡ (none, h'))
  pub length-read : (h h' : S.Handle) (s : Text) (n : ℕ) → S.read n h ≡ (some s, h') → length s ≡ n
  pub closed : (h : S.Handle) → S.Incoming (S.close h) []
