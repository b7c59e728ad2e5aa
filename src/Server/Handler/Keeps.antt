-- ===== src/Server/Handler/Keeps.antt =====
-- Handlers that leave a part of the state as it is, step by step.
use free_box.Prelude.{◌≡◌, refl, ◌∙◌, Bool, true, false, Option, none, some, if◌then◌else◌}
use free_box.Outcome.{Result, ok, err}
use free_box.Server.Error.{AppError}
use free_box.Server.Handler.{continue, Handler, pure, lift, gets, require, modify, await, ◌>>=◌}

module _ {ℓ κ} {S : Type ℓ} {V : Type κ} (part : S → V) where
  abbrev pub Keeps {μ} : {A : Type μ} → Handler S A → Type (ℓ ⊔ κ)
  Keeps m = (s : S) → part (m s).1 ≡ part s

  module _ {μ} {A : Type μ} where
    pub Keeps-pure : (a : A) → Keeps (pure a)
    Keeps-pure a s = refl

    pub Keeps-lift : (r : Result AppError A) → Keeps (lift r)
    Keeps-lift r s = refl

    pub Keeps-gets : (f : S → A) → Keeps (gets f)
    Keeps-gets f s = refl

    pub Keeps-require : (o : Option A) (e : AppError) → Keeps (require {S = S} o e)
    Keeps-require none e s = refl
    Keeps-require (some a) e s = refl

    pub Keeps-if : (b : Bool) (m n : Handler S A) → Keeps m → Keeps n → Keeps (if b then m else n)
    Keeps-if true m n p q = p
    Keeps-if false m n p q = q

  pub Keeps-await : (b : Bool) → Keeps (await {S = S} b)
  Keeps-await true s = refl
  Keeps-await false s = refl

  pub Keeps-modify : {f : S → S} → ((s : S) → part (f s) ≡ part s) → Keeps (modify f)
  Keeps-modify h s = h s

  module _ {μ ν} {A : Type μ} {B : Type ν} where
    Keeps-continue :
        (f : A → Handler S B)
        → ((a : A) → Keeps (f a))
        → (r : Result AppError A) (s : S) → part (continue r s f).1 ≡ part s
    Keeps-continue f q (ok a) s = q a s
    Keeps-continue f q (err e) s = refl

    pub Keeps-bind :
        (m : Handler S A) (f : A → Handler S B)
        → Keeps m
        → ((a : A) → Keeps (f a))
        → Keeps (m >>= f)
    Keeps-bind m f p q s = Keeps-continue f q (m s).0 (m s).1 ∙ p s
