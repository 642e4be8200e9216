-- ===== src/Container/Fifo.antt =====
-- src/container/ThreadFriendlyQueue.hpp as a queue: what is pushed comes out in order.
use callx.Container.Queue.{Queue, Popped, waits, deactivated, popped, push, wait_and_pop}
use callx.Container.Queue
use mathlib.Core.List.{append-nil, append_assoc}
use callx.Prelude.{ℕ, zero, suc, ◌≡◌, refl, sym, ◌∙◌, true, List, [], ◌∷◌, ◌++◌, length, arith}

module _ {ℓ} {A : Type ℓ} where
  abbrev pub push_all : List A → Queue A → Queue A
  push_all [] q = q
  push_all (a ∷ rest) q = push_all rest (push a q)

  abbrev next : Popped A → (Queue A → List A) → List A
  next waits f = []
  next deactivated f = []
  next (popped a q) f = a ∷ f q

  -- What `n` calls of `waitAndPop` hand out, up to the first that waits or is turned away.
  abbrev pub pop_times : ℕ → Queue A → List A
  pop_times zero q = []
  pop_times (suc n) q = next (wait_and_pop q) (pop_times n)

  pop_times_all :
      (q : Queue A) (xs : List A) → q.activated ≡ true → q.items ≡ xs → pop_times (length xs) q ≡ xs
  unfolding wait_and_pop
  pop_times_all q [] h e = refl
  pop_times_all q (x ∷ xs) h e = ground (arith, pop_times_all (record q { items = xs }) xs)

  push_all_frame :
      (xs : List A) (q : Queue A)
      → ((push_all xs q).items ≡ q.items ++ xs) × ((push_all xs q).activated ≡ q.activated)
  unfolding push
  push_all_frame [] q = (sym (append-nil q.items), refl)
  push_all_frame (x ∷ xs) q =
      let frame = push_all_frame xs (push x q) in
      (frame.0 ∙ append_assoc q.items (x ∷ []) xs, frame.1)

  -- An activated queue hands out what it holds and then what is pushed, in the order of pushing,
  -- when it is popped as often as there are elements.
  pub push_all-pop_times :
      (xs : List A) (q : Queue A)
      → q.activated ≡ true
      → pop_times (length (q.items ++ xs)) (push_all xs q) ≡ q.items ++ xs
  push_all-pop_times xs q h =
      let frame = push_all_frame xs q in pop_times_all (push_all xs q) (q.items ++ xs) (cc) frame.0

  -- After `deactivate` nobody gets an element, however many are held or pushed.
  pub deactivate-wait_and_pop :
      (xs : List A) (q : Queue A) → wait_and_pop (push_all xs (Queue.deactivate q)) ≡ deactivated
  unfolding wait_and_pop Queue.deactivate
  deactivate-wait_and_pop xs q = ground (arith, push_all_frame xs (Queue.deactivate q))
