-- ===== src/Net/Queue.antt =====
-- src/change_lib/net/connect_queue.hpp: a deque behind a mutex, each method one step. Taking an
-- element of an empty deque has no result.
use wallchanger.Base.{
  ℕ, zero, suc, sym, ◌∙◌, Bool, true, false, ◌≡◌, refl, ap, List, [], ◌∷◌, ◌++◌, length, back?,
  pop_back, back?-append, pop_back-append, Outcome, done, fault, past_end, or_fault, ◌>>=◌,
}
use mathlib.Core.List.{append-nil, append_assoc}

module _ {ℓ} {A : Type ℓ} where
  unfoldable pub front : List A → Outcome A
  front [] = fault past_end
  front (x ∷ q) = done x

  unfoldable pub back : List A → Outcome A
  back q = or_fault past_end (back? q)

  unfoldable pub pop_front : List A → Outcome (A × List A)
  pop_front [] = fault past_end
  pop_front (x ∷ q) = done (x, q)

  -- `pop_back` of the queue.
  unfoldable pub pop_last : List A → Outcome (A × List A)
  pop_last q = or_fault past_end (back? q) >>= λ x. done (x, pop_back q)

  unfoldable pub push_front : A → List A → List A
  push_front x q = x ∷ q

  unfoldable pub push_back : A → List A → List A
  push_back x q = q ++ x ∷ []

  unfoldable pub is_empty : List A → Bool
  is_empty [] = true
  is_empty (x ∷ q) = false

  abbrev pub clear : List A → List A
  clear q = []

  abbrev pub size : List A → ℕ
  size q = length q

  -- All elements of a range, one after the other.
  abbrev pub push_all : List A → List A → List A
  push_all [] q = q
  push_all (x ∷ xs) q = push_all xs (push_back x q)

  abbrev pub pop_all : ℕ → List A → Outcome (List A × List A)
  pop_all zero q = done ([], q)
  pop_all (suc n) q = pop_front q >>= λ r. pop_all n r.1 >>= λ rest. done (r.0 ∷ rest.0, rest.1)

  pop_all-append : (xs rest : List A) → pop_all (length xs) (xs ++ rest) ≡ done (xs, rest)
  unfolding pop_front
  pop_all-append [] rest = refl
  pop_all-append (x ∷ xs) rest = rw (pop_all-append xs rest) refl

  push_all-lem : (xs q : List A) → push_all xs q ≡ q ++ xs
  unfolding push_back
  push_all-lem [] q = sym (append-nil q)
  push_all-lem (x ∷ xs) q = push_all-lem xs (q ++ x ∷ []) ∙ append_assoc q (x ∷ []) xs

  -- What is pushed at the back of an empty queue is popped at the front in the same order, and the
  -- queue is empty again.
  pub pop_all-push_all : (xs : List A) → pop_all (length xs) (push_all xs []) ≡ done (xs, [])
  pop_all-push_all xs =
      rw (push_all-lem xs [])
        (ap (pop_all (length xs)) (sym (append-nil xs)) ∙ pop_all-append xs [])

  -- At one end the queue is a stack.
  pub pop_last-push_back : (x : A) (q : List A) → pop_last (push_back x q) ≡ done (x, q)
  unfolding pop_last push_back
  pop_last-push_back x q = rw (back?-append q x, pop_back-append q x) refl
