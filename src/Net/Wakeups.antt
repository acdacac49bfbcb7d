-- ===== src/Net/Wakeups.antt =====
-- Who waits for whom in src/change_lib/net/connect_queue.hpp: the two mutexes, and the condition
-- variable that is waited for after the queue was looked at.
use wallchanger.Base.{
  ℕ, Bool, true, false, ◌≡◌, ◌⊎◌, inl, inr, refl, sym, ap, ◌∙◌, List, [], ◌∷◌, ◌++◌, none, some,
  arith, Bool-cases, if◌then◌else◌,
}
use mathlib.Core.List.{append-nil, append_assoc}
use wallchanger.Net.Queue.{push_back, is_empty}
use wallchanger.Net.Waiting.{
  Producer, idle, pushing, pushed, notifying, notified, leaving, Consumer, tested, entering, asleep,
  awake, Waiting, at_first, produce, consume, Steps, stay, produces, consumes,
}
use wallchanger.Net.Handed.{has_queue, is_inside, Consistent, Steps-Consistent}

if-false {ℓ} : {B : Type ℓ} (b : Bool) (o : B) → b ≡ false → (if b then none else some o) ≡ some o
if-false b o e = rw e refl

module _ {ℓ} {A : Type ℓ} where
  abbrev pub Produces : A → Waiting A → Type ℓ
  Produces x s = (u : Waiting A) × (produce x s.producer s ≡ some u)

  -- The other thread found the queue empty, and is not yet in the condition variable's `wait`.
  abbrev looked : List A → Waiting A
  looked xs = record {
    queue = xs;
    queue_locked = false;
    blocking_locked = false;
    producer = idle;
    consumer = tested true;
    given = xs;
    taken = [];
  }

  -- The thread sleeps, and nobody is about to wake it.
  abbrev pub sleeping : List A → Waiting A
  sleeping xs = record (looked xs) { consumer = asleep }

module _ {ℓ} {A : Type ℓ} (max_msg : ℕ) where
  -- The thread that holds the second mutex, and what it leaves.
  abbrev pub Gives : Waiting A → Type ℓ
  Gives s =
      (is_inside s.consumer ≡ true)
      × (u : Waiting A) × (consume max_msg s.consumer s ≡ some u)
      × (u.blocking_locked ≡ false)

  gives :
      (s : Waiting A) (c : Consumer)
      → s.consumer ≡ c
      → is_inside c ≡ true
      → (u : Waiting A) × (consume max_msg c s ≡ some u) × (u.blocking_locked ≡ false)
  unfolding consume
  gives s entering e h = (_, refl, refl)
  gives s awake e h = (_, refl, refl)
  gives s _ e h = cc

  goes_on :
      (x : A) (s : Waiting A) (p : Producer A)
      → s.producer ≡ p
      → Consistent s
      → ((u : Waiting A) × (produce x p s ≡ some u)) ⊎ Gives s
  unfolding produce
  goes_on x s idle e c = inl (_, if-false s.queue_locked _ (c.queue_held ∙ ap has_queue e))
  goes_on x s pushed e c = elim (Bool-cases s.blocking_locked) [
    | inl held ↦
        let inside : is_inside s.consumer ≡ true = ground (arith, c.blocking_held) in
        let (u, h, back) = gives s s.consumer refl inside in inr (inside, u, h, back)
    | inr free ↦ inl (_, if-false s.blocking_locked _ free)
  ]
  goes_on x s (pushing y) e c = inl (_, refl)
  goes_on x s notifying e c = inl (_, refl)
  goes_on x s notified e c = inl (_, refl)
  goes_on x s leaving e c = inl (_, refl)

  -- In every state that the threads get to, a call of `push_back` can begin or go on at once,
  -- unless the other thread holds the second mutex, and then that thread can go on and its next
  -- step gives this mutex back: the two mutexes never block each other.
  pub push-goes_on : (x : A) (s : Waiting A) → Steps max_msg at_first s → Produces x s ⊎ Gives s
  push-goes_on x s r = goes_on x s s.producer refl (Steps-Consistent max_msg s r)

  -- A whole call of `push_back`, whose `notify_one` finds nobody who waits.
  push-looked :
      (x : A) (xs : List A) (s : Waiting A)
      → Steps max_msg s (looked xs)
      → Steps max_msg s (looked (xs ++ x ∷ []))
  unfolding produce push_back
  push-looked x xs s r =
      produces x _ _
        (produces x _ _
          (produces x _ _
            (produces x _ _ (produces x _ _ (produces x (looked xs) _ r refl) refl) refl) refl)
          refl)
        refl

  push_all-looked :
      (before xs : List A) (s : Waiting A)
      → Steps max_msg s (looked before)
      → Steps max_msg s (looked (before ++ xs))
  push_all-looked before [] s r = rw (append-nil before) r
  push_all-looked before (x ∷ xs) s r =
      rw (sym (append_assoc before (x ∷ []) xs))
        (push_all-looked (before ++ x ∷ []) xs s (push-looked x before s r))

  -- Messages are not enough to end `wait`: for every sequence of messages, the threads can get to a
  -- state in which all of them are in the queue, every call of `push_back` and its `notify_one` is
  -- over, and the thread in `wait` sleeps.
  pub Steps-sleeping : (xs : List A) → Steps max_msg at_first (sleeping xs)
  unfolding consume is_empty
  Steps-sleeping xs =
      consumes _ _
        (consumes (looked xs) _ (push_all-looked [] xs at_first (consumes at_first _ stay refl))
          refl)
        refl
