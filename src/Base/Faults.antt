-- ===== src/Base/Faults.antt =====
-- Calls that the language leaves undefined, or that throw, at some states.
use mathlib.Core.Path.{◌≡◌, refl, subst}
use mathlib.Core.Option.{Option, none, some}

pub data Fault : Type 0 where
  -- An iterator at the end, or an index past the end, is dereferenced.
  past_end : Fault
  -- `std::uniform_int_distribution` over an empty range.
  empty_range : Fault
  -- `std::optional::value` on an empty optional, `std::vector::at` past the end,
  -- `std::string::replace` at `npos`.
  bad_access : Fault
  -- A loop that has not ended with the inputs given.
  still_running : Fault
  -- A function that returns a value ends without one.
  no_return : Fault
  -- Memory is read after it is freed.
  use_after_free : Fault
  -- `std::terminate`, as when a thread is assigned to one that is joinable.
  terminated : Fault
  -- A null pointer is followed.
  null_pointer : Fault
  -- A null handle is freed.
  invalid_handle : Fault
  -- A buffer is written past its end.
  overrun : Fault

pub data Outcome {ℓ} (A : Type ℓ) : Type ℓ where
  done : A → Outcome A
  fault : Fault → Outcome A

infixl 5 ◌>>=◌
abbrev pub ◌>>=◌ {ℓ κ} : {A : Type ℓ} {B : Type κ} → Outcome A → (A → Outcome B) → Outcome B
done a >>= f = f a
fault e >>= f = fault e

abbrev pub or_fault {ℓ} : {A : Type ℓ} → Fault → Option A → Outcome A
or_fault e none = fault e
or_fault e (some a) = done a

-- The two steps of a call that returned.
pub >>=-eq-done {ℓ κ} :
    {A : Type ℓ} {B : Type κ} (m : Outcome A) (f : A → Outcome B) {b : B}
    → (m >>= f) ≡ done b
    → (a : A) × (m ≡ done a) × (f a ≡ done b)
>>=-eq-done (done a) f h = (a, refl, h)
>>=-eq-done (fault e) f h = cc

pub or_fault-eq-done {ℓ} :
    {A : Type ℓ} (e : Fault) (o : Option A) {a : A} → or_fault e o ≡ done a → o ≡ some a
or_fault-eq-done e none h = cc
or_fault-eq-done e (some a) h = cc

-- What holds of the result, if the call returns.
abbrev pub Satisfies {ℓ κ} : {A : Type ℓ} → (A → Type κ) → Outcome A → Type κ
Satisfies P (done a) = P a
Satisfies P (fault e) = Unit

pub >>=-Satisfies {ℓ κ μ} :
    {A : Type ℓ} {B : Type κ} (P : B → Type μ) (o : Outcome A) (f : A → Outcome B)
    → ((a : A) → Satisfies P (f a))
    → Satisfies P (o >>= f)
>>=-Satisfies P (done a) f h = h a
>>=-Satisfies P (fault e) f h = tt

-- With what the first call gives.
pub >>=-Satisfies_of {ℓ κ μ} :
    {A : Type ℓ} {B : Type κ} (P : B → Type μ) (o : Outcome A) (f : A → Outcome B)
    → Satisfies (λ a. Satisfies P (f a)) o
    → Satisfies P (o >>= f)
>>=-Satisfies_of P (done a) f h = h
>>=-Satisfies_of P (fault e) f h = tt

pub Satisfies-done {ℓ κ} :
    {A : Type ℓ} (P : A → Type κ) (o : Outcome A) (a : A) → Satisfies P o → o ≡ done a → P a
Satisfies-done P o a h e = subst (Satisfies P) e h

pub Satisfies-weaken {ℓ κ μ} :
    {A : Type ℓ} {P : A → Type κ} {Q : A → Type μ} (o : Outcome A)
    → ((a : A) → P a → Q a)
    → Satisfies P o
    → Satisfies Q o
Satisfies-weaken (done a) f h = f a h
Satisfies-weaken (fault e) f h = tt
