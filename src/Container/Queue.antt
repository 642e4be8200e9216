-- ===== src/Container/Queue.antt =====
-- src/container/ThreadFriendlyQueue.hpp. The lock makes each operation atomic. A `wait_and_pop` that
-- would block is the result `waits`; it is tried again after the next `push` or `deactivate`.
use callx.Prelude.{
  ℕ, ◌+◌, Bool, true, false, List, [], ◌∷◌, ◌++◌, Option, none, some, if◌then◌else◌, length, ltb,
}

pub record Queue {ℓ} (A : Type ℓ) : Type ℓ where
  pub items : List A
  pub activated : Bool
  pub size_max : ℕ

pub data Popped {ℓ} (A : Type ℓ) : Type ℓ where
  waits : Popped A
  deactivated : Popped A
  popped : A → Queue A → Popped A

module _ {ℓ} {A : Type ℓ} where
  unfoldable pub empty : Queue A
  empty = record { items = []; activated = true; size_max = 0 }

  unfoldable pub push : A → Queue A → Queue A
  push a q =
      let items = q.items ++ a ∷ [] in
      record q {
        items = items;
        size_max = if ltb q.size_max (length items) then q.size_max + 1 else q.size_max;
      }

  abbrev pop_items : List A → Queue A → Popped A
  pop_items [] q = waits
  pop_items (a ∷ rest) q = popped a (record q { items = rest })

  unfoldable pub wait_and_pop : Queue A → Popped A
  wait_and_pop q = if q.activated then pop_items q.items q else deactivated

  abbrev try_items : List A → Queue A → Option (A × Queue A)
  try_items [] q = none
  try_items (a ∷ rest) q = some (a, record q { items = rest })

  unfoldable pub try_pop : Queue A → Option (A × Queue A)
  try_pop q = try_items q.items q

  unfoldable pub activate : Queue A → Queue A
  activate q = record q { activated = true }

  unfoldable pub deactivate : Queue A → Queue A
  deactivate q = record q { activated = false }
