-- ===== src/Manager/Throws.antt =====
-- The calls of `std::filesystem` in src/change_app/wall_manager.cpp throw, in methods that are
-- `noexcept`: a call returns, or the file system has thrown and the program ends.
use wallchanger.Base.{
  ◌≡◌, refl, String, Option, none, some, ◌⊎◌, inl, inr, Outcome, done, fault, terminated, or_fault,
  ◌>>=◌,
}
use wallchanger.Manager.Records.{FileSystem}

-- Some question to the file system throws.
abbrev pub Throws : FileSystem → Type 0
Throws fs =
    ((p : String) × (fs.exists p ≡ none))
    ⊎ ((p : String) × (fs.directory p ≡ none))
    ⊎ ((p : String) × (fs.recursive_directory p ≡ none))
    ⊎ ((p : String) × (f : String) × (fs.file_exists p f ≡ none))

-- The call returns, with what is said of its result, or ends the program since the file system
-- throws. No other fault is left.
abbrev pub Ends {ℓ κ} : {A : Type ℓ} → FileSystem → (A → Type κ) → Outcome A → Type (ℓ ⊔ κ)
Ends {A} fs P o = ((r : A) × (o ≡ done r) × P r) ⊎ ((o ≡ fault terminated) × Throws fs)

module _ (fs : FileSystem) where
  pub >>=-Ends {ℓ κ μ ν} :
      {A : Type ℓ} {B : Type κ} {P : A → Type μ} {Q : B → Type ν} (o : Outcome A)
      (k : A → Outcome B)
      → Ends fs P o
      → ((r : A) → P r → Ends fs Q (k r))
      → Ends fs Q (o >>= k)
  >>=-Ends o k (inl (r, e, p)) next = rw e (next r p)
  >>=-Ends o k (inr (e, t)) next = inr (rw e refl, t)

  pub asked {ℓ κ} :
      {A : Type ℓ} {P : A → Type κ} (o : Option A)
      → (o ≡ none → Throws fs)
      → ((a : A) → P a)
      → Ends fs P (or_fault terminated o)
  asked none throws p = inr (refl, throws refl)
  asked (some a) throws p = inl (a, refl, p a)
