-- ===== src/Outcome.antt =====
-- Rust's `Result`, with `?` as the bind of a `do` block.
use free_box.Prelude.{◌≡◌, ◌↔◌, refl, Option, none, some, Bool, true, false}

pub data Result {ℓ κ} (E : Type ℓ) (A : Type κ) : Type (ℓ ⊔ κ) where
  ok : A → Result E A
  err : E → Result E A

-- `?` and the semicolon
module _ {ℓ κ μ} {E : Type ℓ} {A : Type κ} {B : Type μ} where
  infixl 5 ◌>>=◌
  abbrev pub ◌>>=◌ : Result E A → (A → Result E B) → Result E B
  err e >>= next = err e
  ok a >>= next = next a

  -- A chain that succeeds has a first step that succeeds.
  pub first_step :
      (step : Result E A) (next : A → Result E B) (out : B)
      → step >>= next ≡ ok out
      → (got : A) × (step ≡ ok got) × (next got ≡ ok out)
  first_step (err e) next out whole = cc
  first_step (ok got) next out whole = (got, refl, whole)

module _ {ℓ κ} {E : Type ℓ} {B : Type κ} where
  infixl 5 ◌>>◌
  abbrev pub ◌>>◌ : Result E (Unit {0}) → Result E B → Result E B
  check >> rest = check >>= λ _. rest

-- `if test { return Err(e) }`.
abbrev pub reject_if {ℓ} : {E : Type ℓ} → Bool → E → Result E (Unit {0})
reject_if true e = err e
reject_if false e = ok tt

-- `Option::ok_or`.
abbrev pub ok_or {ℓ κ} : {E : Type ℓ} {A : Type κ} → Option A → E → Result E A
ok_or none e = err e
ok_or (some a) e = ok a

-- `Option::unwrap_or`
abbrev pub unwrap_or {ℓ} : {A : Type ℓ} → Option A → A → A
unwrap_or none default = default
unwrap_or (some a) default = a

-- A chain of checks passes when its first check and the rest do.
pub reject_if-ok_iff {ℓ} :
    {E : Type ℓ} (b : Bool) (e : E) (m : Result E (Unit {0}))
    → ((reject_if b e >> m) ≡ ok tt) ↔ ((b ≡ false) × (m ≡ ok tt))
reject_if-ok_iff true e m = (λ h. cc, λ h. cc (h.0))
reject_if-ok_iff false e m = (λ h. (refl, h), λ h. h.1)
