-- ===== src/SafeQueue/Order.antt =====
-- The queue of SafeQueue.hpp between threads that push and threads that pop: entries leave it in the
-- order in which they came.
use go_game.Prelude.{◌≡◌, refl, sym, ◌∙◌, ap, Bool, true, false, List, [], ◌∷◌, ◌++◌}
use mathlib.Core.List.{append_assoc}
use go_game.SafeQueue.{
  SafeQueue, new_queue, Popped, waits, throws, takes_entry, push, pop_of, pop, release,
}

module _ {ℓ} (Entry : Type ℓ) where
  -- The states of the queue after entries were pushed and entries were popped, by whichever threads.
  pub data Reaches : SafeQueue Entry → List Entry → List Entry → Type ℓ where
    created : Reaches new_queue [] []
    pushes :
        {q : SafeQueue Entry} {pushed popped : List Entry} (e : Entry)
        → Reaches q pushed popped
        → Reaches (push q e) (pushed ++ e ∷ []) popped
    pops :
        {q q' : SafeQueue Entry} {pushed popped : List Entry} (e : Entry)
        → pop q ≡ takes_entry e q'
        → Reaches q pushed popped
        → Reaches q' pushed (popped ++ e ∷ [])
    releases :
        {q : SafeQueue Entry} {pushed popped : List Entry}
        → Reaches q pushed popped
        → Reaches (release q) pushed popped

  -- The entries of the queue, read from what `Pop` comes to.
  entries : Popped Entry → List Entry
  entries waits = []
  entries throws = []
  entries (takes_entry e q) = e ∷ q.queue

  pop-entries : (q : SafeQueue Entry) → q.queue ≡ entries (pop q)
  unfolding pop entries
  pop-entries q = of_queue q.queue q.block_threads
    where
      of_queue : (es : List Entry) (block : Bool) → es ≡ entries (pop_of es block)
      of_queue [] true = refl
      of_queue [] false = refl
      of_queue (x ∷ es) block = refl

  -- The entries that were popped, followed by those in the queue, are the entries that were pushed, in
  -- their order: none is lost, doubled or overtaken.
  pub Reaches-InOrder :
      (q : SafeQueue Entry) (pushed popped : List Entry)
      → Reaches q pushed popped
      → popped ++ q.queue ≡ pushed
  unfolding push release entries
  Reaches-InOrder q pushed popped created = refl
  Reaches-InOrder q pushed popped (pushes {q = p} e r) =
      sym (append_assoc popped p.queue (e ∷ []))
      ∙ ap (λ (es : List Entry). es ++ e ∷ []) (Reaches-InOrder p _ popped r)
  Reaches-InOrder q pushed popped (pops {q = p} {popped = before} e taken r) =
      append_assoc before (e ∷ []) q.queue
      ∙ ap (λ (es : List Entry). before ++ es) (sym (pop-entries p ∙ ap entries taken))
      ∙ Reaches-InOrder p pushed before r
  Reaches-InOrder q pushed popped (releases r) = Reaches-InOrder _ pushed popped r
