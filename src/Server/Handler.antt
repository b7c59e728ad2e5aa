-- ===== src/Server/Handler.antt =====
-- How the handlers of apps/server/src/api run: each one reads and writes the state and may stop with an
-- error; what was written before the error stays written.
pub mod Keeps
use free_box.Prelude.{◌≡◌, refl, Bool, true, false, Option, none, some, if◌then◌else◌}
use free_box.Outcome.{Result, ok, err, reject_if}
use free_box.Server.Error.{AppError, internal}

abbrev pub Handler {ℓ κ} : Type ℓ → Type κ → Type (ℓ ⊔ κ)
Handler S A = S → Result AppError A × S

module _ {ℓ κ} {S : Type ℓ} {A : Type κ} where
  abbrev pub pure : A → Handler S A
  pure a s = (ok a, s)

  abbrev pub fail : AppError → Handler S A
  fail e s = (err e, s)

  abbrev pub lift : Result AppError A → Handler S A
  lift r s = (r, s)

  abbrev pub gets : (S → A) → Handler S A
  gets f s = (ok (f s), s)

  -- `.ok_or(e)?`
  abbrev pub require : Option A → AppError → Handler S A
  require none e s = (err e, s)
  require (some a) e s = (ok a, s)

module _ {ℓ} {S : Type ℓ} where
  abbrev pub modify : (S → S) → Handler S (Unit {0})
  modify f s = (ok tt, f s)

  -- an awaited call that fails is reported as an internal error
  abbrev pub await : Bool → Handler S (Unit {0})
  await true s = (ok tt, s)
  await false s = (err internal, s)

module _ {ℓ κ μ} {S : Type ℓ} {A : Type κ} {B : Type μ} where
  abbrev pub continue : Result AppError A → S → (A → Handler S B) → Result AppError B × S
  continue (ok a) s f = f a s
  continue (err e) s f = (err e, s)

  infixl 5 ◌>>=◌
  abbrev pub ◌>>=◌ : Handler S A → (A → Handler S B) → Handler S B
  ◌>>=◌ m f s = let (r, s') = m s in continue r s' f

module _ {ℓ κ} {S : Type ℓ} {B : Type κ} where
  infixl 5 ◌>>◌
  abbrev pub ◌>>◌ : Handler S (Unit {0}) → Handler S B → Handler S B
  m >> n = m >>= λ _. n

-- One rule for each step of a handler: what is to be shown of the response and the state follows from
-- the step's error case and from its success case.
module _ {ℓ κ μ ν} {S : Type ℓ} {A : Type κ} {B : Type μ} (P : Result AppError B × S → Type ν) where
  pub lift_rule :
      (r : Result AppError A) (f : A → Handler S B) (s : S)
      → ((e : AppError) → r ≡ err e → P (err e, s))
      → ((a : A) → r ≡ ok a → P (f a s))
      → P ((lift r >>= f) s)
  lift_rule (ok a) f s bad good = good a refl
  lift_rule (err e) f s bad good = bad e refl

  pub require_rule :
      (o : Option A) (e : AppError) (f : A → Handler S B) (s : S)
      → (o ≡ none → P (err e, s))
      → ((a : A) → o ≡ some a → P (f a s))
      → P ((require o e >>= f) s)
  require_rule none e f s bad good = bad refl
  require_rule (some a) e f s bad good = good a refl

module _ {ℓ κ μ} {S : Type ℓ} {B : Type κ} (P : Result AppError B × S → Type μ) where
  pub await_rule :
      (b : Bool) (m : Handler S B) (s : S)
      → (b ≡ false → P (err internal, s))
      → (b ≡ true → P (m s))
      → P ((await b >> m) s)
  await_rule true m s bad good = good refl
  await_rule false m s bad good = bad refl

  pub reject_rule :
      (b : Bool) (e : AppError) (m : Handler S B) (s : S)
      → (b ≡ true → P (err e, s))
      → (b ≡ false → P (m s))
      → P ((lift (reject_if b e) >> m) s)
  reject_rule true e m s bad good = bad refl
  reject_rule false e m s bad good = good refl

  pub if_rule :
      (b : Bool) (m n : Handler S B) (s : S)
      → (b ≡ true → P (m s))
      → (b ≡ false → P (n s))
      → P ((if b then m else n) s)
  if_rule true m n s yes_case no_case = yes_case refl
  if_rule false m n s yes_case no_case = no_case refl
