-- ===== src/Net/Handed.antt =====
-- What holds whenever the two threads of Net/Waiting stand at any point: who has the mutexes of
-- src/change_lib/net/connect_queue.hpp, and which messages are in the queue.
use wallchanger.Base.{
  false-ne-true, Fault, ◌≢◌, if◌then◌else◌, ℕ, Bool, true, false, not, ◌&&◌, ◌||◌, ◌≡◌, refl, sym,
  ap, ◌∙◌, List, [], ◌∷◌, ◌++◌, Outcome, done, fault, arith, Option, none, some, subst, zero, suc,
}
use mathlib.Core.List.{append_assoc}
use wallchanger.Net.Queue.{is_empty, push_back, pop_front}
use wallchanger.Net.Waiting.{
  Producer, idle, pushing, pushed, notifying, notified, leaving, Consumer, entering, awake, popping,
  broken, asleep, testing, tested, woken, looping, Waiting, notify, after_empty, at_first, produce,
  pop, consume, Steps, stay, produces, consumes,
}

-- Which mutexes the threads hold.
abbrev pub has_queue {ℓ} : {A : Type ℓ} → Producer A → Bool
has_queue idle = false
has_queue _ = true

abbrev pub has_blocking {ℓ} : {A : Type ℓ} → Producer A → Bool
has_blocking notifying = true
has_blocking notified = true
has_blocking _ = false

abbrev pub is_inside : Consumer → Bool
is_inside entering = true
is_inside awake = true
is_inside _ = false

-- A thread that is about to take an element, or has failed to.
abbrev pub can_go_on {ℓ} : {A : Type ℓ} → Consumer → List A → Bool
can_go_on (popping left) q = not (is_empty q)
can_go_on broken q = false
can_go_on _ q = true

pub record Consistent {ℓ} {A : Type ℓ} (s : Waiting A) : Type ℓ where
  pub queue_held : s.queue_locked ≡ has_queue s.producer
  pub blocking_held : s.blocking_locked ≡ (has_blocking s.producer || is_inside s.consumer)
  pub exclusive : (has_blocking s.producer && is_inside s.consumer) ≡ false
  pub going_on : can_go_on s.consumer s.queue ≡ true
  pub kept : s.taken ++ s.queue ≡ s.given

notify-is_inside : (c : Consumer) → is_inside (notify c) ≡ is_inside c
notify-is_inside asleep = refl
notify-is_inside _ = refl

after_empty-is_inside : (b : Bool) (left : ℕ) → is_inside (after_empty b left) ≡ false
after_empty-is_inside true left = refl
after_empty-is_inside false left = refl

module _ {ℓ} {A : Type ℓ} where
  push-kept :
      (taken queue given : List A) (x : A)
      → taken ++ queue ≡ given
      → taken ++ push_back x queue ≡ given ++ x ∷ []
  unfolding push_back
  push-kept taken queue given x e =
      sym (append_assoc taken queue (x ∷ [])) ∙ ap (λ l. l ++ x ∷ []) e

  pop-kept :
      (taken queue given rest : List A) (x : A)
      → pop_front queue ≡ done (x, rest)
      → taken ++ queue ≡ given
      → (taken ++ x ∷ []) ++ rest ≡ given
  unfolding pop_front
  pop-kept taken [] given rest x h e = cc
  pop-kept taken (y ∷ q) given rest x h e = append_assoc taken (x ∷ []) rest ∙ ground (arith)

  can_go_on-push :
      (c : Consumer) (x : A) (q : List A)
      → can_go_on c q ≡ true
      → can_go_on c (push_back x q) ≡ true
  unfolding push_back is_empty
  can_go_on-push (popping left) x [] h = cc
  can_go_on-push (popping left) x (y ∷ q) h = refl
  can_go_on-push c x q h = ground arith

  can_go_on-notify : (c : Consumer) (q : List A) → can_go_on (notify c) q ≡ can_go_on c q
  can_go_on-notify asleep q = refl
  can_go_on-notify _ q = refl

  can_go_on-after_empty :
      (q : List A) (left : ℕ) → can_go_on (after_empty (is_empty q) left) q ≡ true
  unfolding is_empty
  can_go_on-after_empty [] left = refl
  can_go_on-after_empty (x ∷ q) left = refl

  pop_front-fault : (q : List A) (e : Fault) → not (is_empty q) ≡ true → pop_front q ≡ fault e → ⊥
  unfolding is_empty pop_front
  pop_front-fault [] k h e = cc
  pop_front-fault (x ∷ q) k h e = cc

  abbrev Next : Option (Waiting A) → Type ℓ
  Next none = Unit
  Next (some t) = Consistent t

  -- A step that waits for a mutex.
  unless-Next :
      (b : Bool) (t : Waiting A) → (b ≡ false → Consistent t) → Next (if b then none else some t)
  unless-Next true t h = tt
  unless-Next false t h = h refl

  -- A step of the thread that pushes.
  produce-Consistent :
      (x : A) (p : Producer A) (s : Waiting A)
      → s.producer ≡ p
      → Consistent s
      → Next (produce x p s)
  unfolding produce
  produce-Consistent x idle s e c =
      unless-Next s.queue_locked (record s { queue_locked = true; producer = pushing x })
        (λ free. record {
          queue_held = refl;
          blocking_held = ground (arith, c.blocking_held);
          exclusive = refl;
          going_on = c.going_on;
          kept = c.kept;
        })
  produce-Consistent x (pushing y) s e c = record {
    queue_held = ground (arith, c.queue_held);
    blocking_held = ground (arith, c.blocking_held);
    exclusive = refl;
    going_on = can_go_on-push s.consumer y s.queue c.going_on;
    kept = push-kept s.taken s.queue s.given y c.kept;
  }
  produce-Consistent x pushed s e c =
      unless-Next s.blocking_locked (record s { blocking_locked = true; producer = notifying })
        (λ free. record {
          queue_held = ground (arith, c.queue_held);
          blocking_held = refl;
          exclusive = ground (arith, c.blocking_held);
          going_on = c.going_on;
          kept = c.kept;
        })
  produce-Consistent x notifying s e c = record {
    queue_held = ground (arith, c.queue_held);
    blocking_held = ground (arith, c.blocking_held);
    exclusive = rw (notify-is_inside s.consumer) (ground (arith, c.exclusive));
    going_on = rw (can_go_on-notify s.consumer s.queue) c.going_on;
    kept = c.kept;
  }
  produce-Consistent x notified s e c = record {
    queue_held = ground (arith, c.queue_held);
    blocking_held = ground (arith, c.exclusive);
    exclusive = refl;
    going_on = c.going_on;
    kept = c.kept;
  }
  produce-Consistent x leaving s e c = record {
    queue_held = refl;
    blocking_held = ground (arith, c.blocking_held);
    exclusive = refl;
    going_on = c.going_on;
    kept = c.kept;
  }

  pop-Consistent :
      (left : ℕ) (s : Waiting A) (o : Outcome (A × List A))
      → s.consumer ≡ popping left
      → pop_front s.queue ≡ o
      → Consistent s
      → Consistent (pop left s o)
  unfolding pop pop_front is_empty
  pop-Consistent left s (done (x, rest)) e h c = record {
    blocking_held = ground (arith, c.blocking_held);
    exclusive = ground arith;
    going_on = refl;
    kept = pop-kept s.taken s.queue s.given rest x h c.kept;
    queue_held = c.queue_held;
  }
  pop-Consistent left s (fault k) e h c =
      absurd (pop_front-fault s.queue k (ground (arith, c.going_on)) h)

  -- A step of the other thread, which leaves the queue alone and does not come to hold the second
  -- mutex.
  outside-Consistent :
      (s : Waiting A) (c' : Consumer)
      → is_inside s.consumer ≡ false
      → is_inside c' ≡ false
      → can_go_on c' s.queue ≡ true
      → Consistent s
      → Consistent (record s { consumer = c' })
  outside-Consistent s c' out out' on c = record {
    blocking_held = ground (arith, c.blocking_held);
    exclusive = ground arith;
    going_on = on;
    queue_held = c.queue_held;
    kept = c.kept;
  }

  enters-Consistent :
      (s : Waiting A) (c' : Consumer)
      → s.blocking_locked ≡ false
      → is_inside c' ≡ true
      → can_go_on c' s.queue ≡ true
      → Consistent s
      → Consistent (record s { blocking_locked = true; consumer = c' })
  enters-Consistent s c' free inside on c = record {
    blocking_held = ground (arith, c.blocking_held);
    exclusive = ground (arith, c.blocking_held);
    going_on = on;
    queue_held = c.queue_held;
    kept = c.kept;
  }

  leaves-Consistent :
      (s : Waiting A) (c' : Consumer)
      → is_inside s.consumer ≡ true
      → is_inside c' ≡ false
      → can_go_on c' s.queue ≡ true
      → Consistent s
      → Consistent (record s { blocking_locked = false; consumer = c' })
  leaves-Consistent s c' inside out on c = record {
    blocking_held = ground (arith, c.exclusive);
    exclusive = ground arith;
    going_on = on;
    queue_held = c.queue_held;
    kept = c.kept;
  }

  -- A step of the thread that takes.
  consume-Consistent :
      (m : ℕ) (p : Consumer) (s : Waiting A) → s.consumer ≡ p → Consistent s → Next (consume m p s)
  unfolding consume
  consume-Consistent m testing s e c =
      unless-Next s.queue_locked _ (λ free. outside-Consistent s _ (ap is_inside e) refl refl c)
  consume-Consistent m (tested false) s e c = outside-Consistent s _ (ap is_inside e) refl refl c
  consume-Consistent m (tested true) s e c =
      unless-Next s.blocking_locked _ (λ free. enters-Consistent s _ free refl refl c)
  consume-Consistent m entering s e c = leaves-Consistent s _ (ap is_inside e) refl refl c
  consume-Consistent m asleep s e c = outside-Consistent s _ (ap is_inside e) refl refl c
  consume-Consistent m woken s e c =
      unless-Next s.blocking_locked _ (λ free. enters-Consistent s _ free refl refl c)
  consume-Consistent m awake s e c = leaves-Consistent s _ (ap is_inside e) refl refl c
  consume-Consistent m (looping zero) s e c = outside-Consistent s _ (ap is_inside e) refl refl c
  consume-Consistent m (looping (suc left)) s e c = unless-Next s.queue_locked _ (λ free.
      outside-Consistent s _ (ap is_inside e) (after_empty-is_inside (is_empty s.queue) left)
        (can_go_on-after_empty s.queue left) c)
  consume-Consistent m (popping left) s e c =
      unless-Next s.queue_locked _ (λ free. pop-Consistent left s (pop_front s.queue) e refl c)
  consume-Consistent m broken s e c = tt

  at_first-Consistent : Consistent {A = A} at_first
  at_first-Consistent = record {
    queue_held = refl;
    blocking_held = refl;
    exclusive = refl;
    going_on = refl;
    kept = refl;
  }

  -- Every state that the threads get to is consistent.
  pub Steps-Consistent : (m : ℕ) (s : Waiting A) → Steps m at_first s → Consistent s
  Steps-Consistent m _ stay = at_first-Consistent
  Steps-Consistent m u (produces x t _ r h) =
      subst Next h (produce-Consistent x t.producer t refl (Steps-Consistent m t r))
  Steps-Consistent m u (consumes t _ r h) =
      subst Next h (consume-Consistent m t.consumer t refl (Steps-Consistent m t r))

  -- With any limit of `update`, in any order of the two threads' steps and with wake-ups that
  -- nobody caused: the messages that were handed over and then those in the queue are the messages
  -- that were pushed, in their order, and no element of an empty queue is ever taken.
  pub Steps-handed :
      (m : ℕ) (s : Waiting A)
      → Steps m at_first s
      → (s.taken ++ s.queue ≡ s.given) × (s.consumer ≢ broken)
  Steps-handed m s r =
      let c = Steps-Consistent m s r in
      (c.kept, λ e. false-ne-true (ap (λ k. can_go_on k s.queue) (sym e) ∙ c.going_on))
