-- ===== src/Container/Pops.antt =====
-- What `waitAndPop` of src/container/ThreadFriendlyQueue.hpp takes and leaves.
use callx.Container.Queue.{Queue, Popped, waits, deactivated, popped, push, wait_and_pop}
use callx.Prelude.{◌+◌, ◌≡◌, ◌⊎◌, inl, inr, refl, true, [], ◌∷◌, List, length, length-append, arith}

-- What a queue gave: the first item, with the others left.
pub popped-items :
    {P : Type 0} (q : Queue P) (p : P) (rest : Queue P)
    → wait_and_pop q ≡ popped p rest
    → (q.items ≡ p ∷ rest.items) × (rest.activated ≡ q.activated)
unfolding wait_and_pop
popped-items q p rest h = ground arith

pub length-push : {P : Type 0} (p : P) (q : Queue P) → length (push p q).items ≡ length q.items + 1
unfolding push
length-push p q = length-append q.items (p ∷ [])

pub Popped-cases :
    {P : Type 0} (f : Popped P)
    → ((f ≡ waits) ⊎ (f ≡ deactivated)) ⊎ ((p : P) × (rest : Queue P) × (f ≡ popped p rest))
Popped-cases waits = inl (inl refl)
Popped-cases deactivated = inl (inr refl)
Popped-cases (popped p rest) = inr (p, rest, refl)

pub pops_first :
    {P : Type 0} (p : P) (ps : List P) (q : Queue P)
    → q.activated ≡ true
    → q.items ≡ p ∷ ps
    → wait_and_pop q ≡ popped p (record q { items = ps })
unfolding wait_and_pop
pops_first p ps q a e = simp (a, e, wait_and_pop)
