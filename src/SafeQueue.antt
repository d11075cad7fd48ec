-- ===== src/SafeQueue.antt =====
-- src/net/network/SafeQueue.hpp and src/game/core/include/core/SafeQueue.hpp, which differ in their
-- namespace only. The mutex makes each operation one step.
pub mod Order
pub mod Tests
use package.go_game.Prelude.{Bool, true, false, not, ◌&&◌, if◌then◌else◌, List, [], ◌∷◌, ◌++◌}

pub record SafeQueue {ℓ} (Entry : Type ℓ) : Type ℓ where
  pub queue : List Entry
  pub block_threads : Bool

abbrev pub new_queue {ℓ} : {Entry : Type ℓ} → SafeQueue Entry
new_queue = record { queue = []; block_threads = true }

-- What a call of `Pop` comes to: the thread waits, an exception is thrown, or an entry is taken.
pub data Popped {ℓ} (Entry : Type ℓ) : Type ℓ where
  waits : Popped Entry
  throws : Popped Entry
  takes_entry : Entry → SafeQueue Entry → Popped Entry

unfoldable pub push {ℓ} : {Entry : Type ℓ} → SafeQueue Entry → Entry → SafeQueue Entry
push q value = record q { queue = q.queue ++ value ∷ [] }

abbrev pub pop_of {ℓ} : {Entry : Type ℓ} → List Entry → Bool → Popped Entry
pop_of [] block = if block then waits else throws
pop_of (e ∷ es) block = takes_entry e (record { queue = es; block_threads = block })

unfoldable pub pop {ℓ} : {Entry : Type ℓ} → SafeQueue Entry → Popped Entry
pop q = pop_of q.queue q.block_threads

abbrev pub empty {ℓ} : {Entry : Type ℓ} → SafeQueue Entry → Bool
empty q = elim q.queue [ [] ↦ true | e ∷ es ↦ false ]

unfoldable pub release {ℓ} : {Entry : Type ℓ} → SafeQueue Entry → SafeQueue Entry
release q = record q { block_threads = false }
