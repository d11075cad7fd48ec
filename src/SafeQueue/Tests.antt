-- ===== src/SafeQueue/Tests.antt =====
-- Three numbers in a queue, and what the theorem on SafeQueue.hpp says of them.
use go_game.Prelude.{ℕ, ◌≡◌, refl, true, false, [], ◌∷◌, ◌++◌}
use go_game.SafeQueue.{SafeQueue, push, pop, release}
use go_game.SafeQueue.Order.{Reaches, created, pushes, pops, releases, Reaches-InOrder}

-- Three entries were pushed, one was popped, and the queue was released.
abbrev two_left : SafeQueue ℕ
two_left = record { queue = 6 ∷ 7 ∷ []; block_threads = false }

two_left-Reaches : Reaches ℕ two_left (5 ∷ 6 ∷ 7 ∷ []) (5 ∷ [])
unfolding push pop release
two_left-Reaches = pushes 7 (
    releases (
      pops {q' = record { queue = 6 ∷ []; block_threads = true }} 5 refl
        (pushes 6 (pushes 5 created))))

Reaches-InOrder_example : 5 ∷ [] ++ two_left.queue ≡ 5 ∷ 6 ∷ 7 ∷ []
Reaches-InOrder_example = Reaches-InOrder ℕ two_left (5 ∷ 6 ∷ 7 ∷ []) (5 ∷ []) two_left-Reaches
