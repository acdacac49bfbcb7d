-- ===== src/Windows/Random.antt =====
-- `get_random_data` of src/change_lib/platform/win32/helper.cpp. What the providers of Windows give
-- is an argument; a call that fails leaves the buffer.
use wallchanger.Base.{
  ℕ, zero, suc, ◌*◌, Bool, true, false, ◌||◌, not, ◌≡◌, refl, List, [], Option, none, some,
  if◌then◌else◌, replicate, arith, ◌+◌, ◌∙◌, ap,
}

abbrev pub kib_256 : ℕ
kib_256 = 256

-- The zeros of a new vector.
abbrev pub buffer : ℕ → List ℕ
buffer counter = replicate (kib_256 * counter) 0

-- The loop of `p_get_random_data_old`, over the calls from `i` on: every call fills the buffer, and
-- the first one that fails clears it.
unfoldable pub generate_old : (ℕ → Option (List ℕ)) → ℕ → ℕ → List ℕ → List ℕ
generate_old gen i zero ret = ret
generate_old gen i (suc n) ret = elim (gen i) [
  | none ↦ []
  | some bytes ↦ generate_old gen (suc i) n bytes
]

-- Without a provider the vector is returned as it was made.
unfoldable pub get_random_data_old : Bool → (ℕ → Option (List ℕ)) → ℕ → List ℕ
get_random_data_old acquired gen counter =
    if acquired then generate_old gen 0 counter (buffer counter) else buffer counter

unfoldable pub generate_new : (ℕ → Option (List ℕ)) → ℕ → ℕ → List ℕ → List ℕ
generate_new gen i zero ret = ret
generate_new gen i (suc n) ret =
    generate_new gen (suc i) n (elim (gen i) [ none ↦ ret | some bytes ↦ bytes ])

-- `BCryptOpenAlgorithmProvider(...) == 0 || STATUS_INVALID_PARAMETER`, and the second is not 0.
abbrev pub is_opened : Bool → Bool
is_opened succeeded = succeeded || true

unfoldable pub get_random_data_new : Bool → (ℕ → Option (List ℕ)) → ℕ → List ℕ
get_random_data_new succeeded gen counter =
    if is_opened succeeded then generate_new gen 0 counter (buffer counter) else []

unfoldable pub get_random_data : Bool → Bool → (ℕ → Option (List ℕ)) → ℕ → List ℕ
unfolding get_random_data_old get_random_data_new
get_random_data windows_7_or_greater succeeded gen counter =
    if not windows_7_or_greater
    then get_random_data_old succeeded gen counter
    else get_random_data_new succeeded gen counter

generate_new-none : (i n : ℕ) (ret : List ℕ) → generate_new (λ i. none) i n ret ≡ ret
unfolding generate_new
generate_new-none i zero ret = refl
generate_new-none i (suc n) ret = generate_new-none (suc i) n ret

generate_new_last :
    (f : ℕ → List ℕ) (i n : ℕ) (ret : List ℕ)
    → generate_new (λ i. some (f i)) i (suc n) ret ≡ f (n + i)
unfolding generate_new
generate_new_last f i zero ret = ap f (omega arith)
generate_new_last f i (suc n) ret = generate_new_last f (suc i) n (f i) ∙ ap f (omega arith)

-- An error never leaves the caller without data: before Windows 7 without a provider, and later
-- with every call failing, the result is as many zeros as bytes were asked for. Where the calls
-- succeed on Windows 7 or later, each one fills the whole buffer again, so that only the last one
-- counts.
pub get_random_data_lem :
    (opened : Bool) (gen : ℕ → Option (List ℕ)) (f : ℕ → List ℕ) (counter : ℕ)
    → (get_random_data false false gen counter ≡ buffer counter)
      × (get_random_data true opened (λ i. none) counter ≡ buffer counter)
      × (get_random_data true opened (λ i. some (f i)) (suc counter) ≡ f counter)
unfolding get_random_data get_random_data_old get_random_data_new
get_random_data_lem true gen f counter = (
  refl,
  generate_new-none 0 counter (buffer counter),
  generate_new_last f 0 counter (buffer (suc counter)) ∙ ap f (omega arith),
)
get_random_data_lem false gen f counter = (
  refl,
  generate_new-none 0 counter (buffer counter),
  generate_new_last f 0 counter (buffer (suc counter)) ∙ ap f (omega arith),
)
