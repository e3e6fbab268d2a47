-- ===== src/Base/Action.antt =====
-- Calls that change a state and may raise: the state comes back in either case, as the call left it.
use mathlib.Core.Path.{◌≡◌, ap}
use micro_pdproxy.Base.Outcome.{Error, Result, ok, raise}

abbrev pub Action : Type 0 → Type 0 → Type 0
Action S A = S → S × Result A

module _ {S : Type 0} where
  abbrev pub return : {A : Type 0} → A → Action S A
  return a s = (s, ok a)

  abbrev pub fail : {A : Type 0} → Error → Action S A
  fail e s = (s, raise e)

  abbrev pub lift : {A : Type 0} → Result A → Action S A
  lift m s = (s, m)

  -- What follows a call, unless it raised.
  abbrev pub resume : {A B : Type 0} → S × Result A → (A → Action S B) → S × Result B
  resume (s, ok a) f = f a s
  resume (s, raise e) f = (s, raise e)

  infixl 5 ◌>>=◌ ◌>>◌
  abbrev pub ◌>>=◌ : {A B : Type 0} → Action S A → (A → Action S B) → Action S B
  ◌>>=◌ m f s = resume (m s) f

  abbrev pub ◌>>◌ : {A B : Type 0} → Action S A → Action S B → Action S B
  m >> k = m >>= λ _. k

  -- `except`: what follows an exception.
  abbrev pub recover : {A : Type 0} → S × Result A → (Error → Action S A) → S × Result A
  recover (s, ok a) f = (s, ok a)
  recover (s, raise e) f = f e s

  -- `finally`: the last call, whose exception replaces an earlier one.
  abbrev pub finally : {A : Type 0} → S × Result A → Action S Unit → S × Result A
  finally (s, m) k = resume (k s) (λ u. lift m)

  -- What every call of a sequence keeps, the sequence keeps.
  pub resume_keeps {κ} :
      {A B : Type 0} (P : S → Type κ) (r : S × Result A) (f : A → Action S B)
      → P r.0
      → ((a : A) (s : S) → P s → P (f a s).0)
      → P (resume r f).0
  resume_keeps P (s, ok a) f h k = k a s h
  resume_keeps P (s, raise e) f h k = h

  -- What follows a call that returned.
  pub resume_ok :
      {A B : Type 0} (r : S × Result A) (a : A) (f : A → Action S B)
      → r.1 ≡ ok a
      → resume r f ≡ f a r.0
  resume_ok (s, m) a f h = ap (λ x. resume (s, x) f) h
