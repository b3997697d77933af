-- ===== src/Shared/Results.antt =====
-- Rust's `Result`, and the chains that `?` writes.
use mathlib.Core.Option.{Option, none, some}

pub data Result {ℓ κ} (A : Type ℓ) (E : Type κ) : Type (ℓ ⊔ κ) where
  ok : A → Result A E
  err : E → Result A E

module _ {ℓ κ} {A : Type ℓ} {E : Type κ} where
  infixl 5 ◌>>=◌
  abbrev pub ◌>>=◌ {μ} : {B : Type μ} → Result A E → (A → Result B E) → Result B E
  ok a >>= f = f a
  err e >>= f = err e

  abbrev pub ok_or : Option A → E → Result A E
  ok_or none e = err e
  ok_or (some a) e = ok a

-- What the value that is returned, if there is one, satisfies.
abbrev pub OnSome {ℓ κ} : {A : Type ℓ} → (A → Type κ) → Option A → Type κ
OnSome Q none = Unit
OnSome Q (some a) = Q a

pub OnSome-map {ℓ κ μ} :
    {A : Type ℓ} {Q : A → Type κ} {R : A → Type μ} (o : Option A)
    → OnSome Q o
    → ((a : A) → Q a → R a)
    → OnSome R o
OnSome-map none q next = tt
OnSome-map (some a) q next = next a q

pub OnSome-both {ℓ κ μ} :
    {A : Type ℓ} (Q : A → Type κ) (R : A → Type μ) (o : Option A)
    → OnSome Q o
    → OnSome R o
    → OnSome (λ a. Q a × R a) o
OnSome-both Q R none q r = tt
OnSome-both Q R (some a) q r = (q, r)
