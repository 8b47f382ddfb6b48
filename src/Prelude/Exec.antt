-- ===== src/Prelude/Exec.antt =====
-- Methods that change an object, may return an error by `?` and may panic by `unwrap`. What was
-- written before an error or a panic stays written, so the state comes back beside those too.
use mathlib.Core.Path.{◌≡◌, refl}
use mathlib.Core.Logic.{◌⊎◌, inl, inr}
use mathlib.Core.Option.{Option, none, some}

pub data Outcome {ℓ} (E A : Type ℓ) : Type ℓ where
  ok : A → Outcome E A
  err : E → Outcome E A
  panic : Outcome E A

pub Outcome-cases {ℓ} :
    {E A : Type ℓ}
    → (o : Outcome E A) → ((a : A) × (o ≡ ok a)) ⊎ ((e : E) × (o ≡ err e)) ⊎ (o ≡ panic)
Outcome-cases (ok a) = inl (a, refl)
Outcome-cases (err e) = inr (inl (e, refl))
Outcome-cases panic = inr (inr refl)

abbrev pub Exec {ℓ} : Type ℓ → Type ℓ → Type ℓ → Type ℓ
Exec E S A = S → Outcome E A × S

module _ {ℓ} {E S A : Type ℓ} where
  abbrev pub pure : A → Exec E S A
  pure a s = (ok a, s)

  abbrev pub fail : E → Exec E S A
  fail e s = (err e, s)

  abbrev pub crash : Exec E S A
  crash s = (panic, s)

  abbrev pub lift : Outcome E A → Exec E S A
  lift r s = (r, s)

  abbrev pub gets : (S → A) → Exec E S A
  gets f s = (ok (f s), s)

  -- `o.ok_or(e)?`
  abbrev pub ok_or : Option A → E → Exec E S A
  ok_or none e s = (err e, s)
  ok_or (some a) e s = (ok a, s)

  -- `o.unwrap()` on an `Option`.
  abbrev pub unwrap_option : Option A → Exec E S A
  unwrap_option none s = (panic, s)
  unwrap_option (some a) s = (ok a, s)

module _ {ℓ} {E S : Type ℓ} where
  abbrev pub modify : (S → S) → Exec E S (Unit {ℓ})
  modify f s = (ok tt, f s)

module _ {ℓ} {E S A B : Type ℓ} where
  abbrev pub continue : Outcome E A → (A → Exec E S B) → Exec E S B
  continue (ok a) f s = f a s
  continue (err e) f s = (err e, s)
  continue panic f s = (panic, s)

  infixl 10 ◌>>=◌ ◌>>◌
  abbrev pub ◌>>=◌ : Exec E S A → (A → Exec E S B) → Exec E S B
  ◌>>=◌ m f s = continue (m s).0 f (m s).1

  abbrev pub ◌>>◌ : Exec E S A → Exec E S B → Exec E S B
  m >> n = m >>= λ _. n

-- `let _ = m;`: an error is dropped, a panic is not.
abbrev pub settle {ℓ} : {E F A : Type ℓ} → Outcome E A → Outcome F (Unit {ℓ})
settle (ok a) = ok tt
settle (err e) = ok tt
settle panic = panic

abbrev pub ignore {ℓ} : {E F S A : Type ℓ} → Exec E S A → Exec F S (Unit {ℓ})
ignore m s = (settle (m s).0, (m s).1)

-- `m.unwrap()` on a `Result`.
abbrev pub unwrapped {ℓ} : {E F A : Type ℓ} → Outcome E A → Outcome F A
unwrapped (ok a) = ok a
unwrapped (err e) = panic
unwrapped panic = panic

abbrev pub unwrap {ℓ} : {E F S A : Type ℓ} → Exec E S A → Exec F S A
unwrap m s = (unwrapped (m s).0, (m s).1)

-- `m.map_err(|_| e)?`
abbrev pub mapped {ℓ} : {E F A : Type ℓ} → F → Outcome E A → Outcome F A
mapped f (ok a) = ok a
mapped f (err e) = err f
mapped f panic = panic

abbrev pub map_err {ℓ} : {E F S A : Type ℓ} → F → Exec E S A → Exec F S A
map_err f m s = (mapped f (m s).0, (m s).1)
