-- ===== src/Session/Binds.antt =====
-- A sequence of actions, by how its first action ends.
use kids_chores_api.Session.Monad.{Session, Result, ok, err, Error, Action, on_error, ◌>>=◌}
use kids_chores_api.Prelude.{◌≡◌, ap}

module _ {A B : Type 0} (m : Action A) (f : A → Action B) (s : Session) where
  abbrev onward : Result A × Session → Result B × Session
  onward r = elim r.0 as (λ _. Result B × Session) [ ok a ↦ f a r.1 | err e ↦ (err e, r.1) ]

  pub bind-ok : {a : A} {t : Session} → m s ≡ (ok a, t) → (m >>= f) s ≡ f a t
  bind-ok h = ap onward h

  pub bind-err : {e : Error} {t : Session} → m s ≡ (err e, t) → (m >>= f) s ≡ (err e, t)
  bind-err h = ap onward h

-- A run that returns, with the session after it.
pub after_ok :
    {A : Type 0} (m : Action A) (s : Session) {a : A} → (m s).0 ≡ ok a → m s ≡ (ok a, (m s).1)
after_ok m s done = λ i. (done i, (m s).1)

pub on_error-ok :
    {A : Type 0} (g : Error → Error) (m : Action A) (s : Session) {a : A} {t : Session}
    → m s ≡ (ok a, t)
    → on_error g m s ≡ (ok a, t)
on_error-ok {A} g m s h =
    ap
      (λ (r : Result A × Session). elim r.0 as (λ _. Result A × Session) [
        | ok a ↦ (ok a, r.1)
        | err e ↦ (err (g e), r.1)
      ])
      h

-- What an action and what follows it keep, the sequence keeps.
module _ {ℓ} (P : Session → Type ℓ) (s : Session) where
  pub bind_keeps :
      {A B : Type 0} (m : Action A) (f : A → Action B)
      → P (m s).1
      → ((a : A) (t : Session) → P t → P (f a t).1)
      → P ((m >>= f) s).1
  bind_keeps {A} {B} m f kept rest = go (m s) kept
    where
      go : (r : Result A × Session) → P r.1 → P (((λ (t : Session). r) >>= f) s).1
      go (ok a, t) h = rest a t h
      go (err e, t) h = h

  pub on_error_keeps :
      {A : Type 0} (g : Error → Error) (m : Action A) → P (m s).1 → P (on_error g m s).1
  on_error_keeps {A} g m kept = go (m s) kept
    where
      go : (r : Result A × Session) → P r.1 → P (on_error g (λ (t : Session). r) s).1
      go (ok a, t) h = h
      go (err e, t) h = h
