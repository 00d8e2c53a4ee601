-- ===== src/Session/Reads.antt =====
-- Actions that read no table and change nothing.
use kids_chores_api.Session.Monad.{Session, Result, ok, err, Error, Action, or_raise, ◌>>=◌}
use kids_chores_api.Prelude.{◌≡◌, refl, ap, sym, ◌∙◌, Option, none, some}

-- The result is the same in every session, and the session stays.
abbrev pub Reads : {A : Type 0} → Action A → Type 0
Reads m = (s t : Session) → m s ≡ ((m t).0, s)

pub or_raise-Reads : {A : Type 0} (o : Option A) (e : Error) → Reads (or_raise o e)
or_raise-Reads none e s t = refl
or_raise-Reads (some a) e s t = refl

module _ {A B : Type 0} (m : Action A) (f : A → Action B) (reads : Reads m)
    (rest : (a : A) → Reads (f a)) where
  continue_with : Result A × Session → Result B × Session
  continue_with r = elim r.0 as (λ _. Result B × Session) [ ok a ↦ f a r.1 | err e ↦ (err e, r.1) ]

  continue_with-Reads :
      (r : Result A) (s t : Session) → continue_with (r, s) ≡ ((continue_with (r, t)).0, s)
  unfolding continue_with
  continue_with-Reads (ok a) s t = rest a s t
  continue_with-Reads (err e) s t = refl

  pub bind-Reads : Reads (m >>= f)
  unfolding continue_with
  bind-Reads s t =
      ap continue_with (reads s t)
      ∙ continue_with-Reads (m t).0 s t
      ∙ ap (λ (z : Result B × Session). (z.0, s)) (sym (ap continue_with (reads t t)))
