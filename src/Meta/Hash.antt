-- ===== src/Meta/Hash.antt =====
-- What the program uses of the crate xxhash-rust (`Xxh3`) and of the floats: parameters of the
-- model, with the documented law that a digest does not depend on how the input is cut up.
use rstr.Prelude.{
  ℕ, ◌≡◌, sym, ◌∙◌, ap, List, [], ◌∷◌, ◌++◌, foldl, concat, append_assoc, append-nil, Bool,
}

pub record Hasher : Type 1 where
  pub State : Type 0
  pub new : State
  pub write : State → List ℕ → State
  pub reset : State → State
  pub digest : State → ℕ
  pub hash : List ℕ → ℕ
  pub digest-new : (parts : List (List ℕ)) → digest (foldl write new parts) ≡ hash (concat parts)
  pub digest-reset :
      (s : State) (parts : List (List ℕ))
      → digest (foldl write (reset s) parts) ≡ hash (concat parts)

-- The progress of a transfer: `ratio a b` is `(a as f64 / b as f64) as f32`, and `moved a b` is
-- `a - b > 0.01f32`.
pub record Floats : Type 1 where
  pub F32 : Type 0
  pub zero_f32 : F32
  pub one_f32 : F32
  pub ratio : ℕ → ℕ → F32
  pub moved : F32 → F32 → Bool

module _ (H : Hasher) where
  open H use {State, new, write, reset, digest, hash}

  -- A hasher that has taken these bytes, as far as any digest can tell.
  abbrev pub Absorbed : State → List ℕ → Type 0
  Absorbed s bytes =
      (parts : List (List ℕ)) → digest (foldl write s parts) ≡ hash (bytes ++ concat parts)

  pub new-Absorbed : Absorbed new []
  new-Absorbed parts = H.digest-new parts

  pub reset-Absorbed : (s : State) → Absorbed (reset s) []
  reset-Absorbed s parts = H.digest-reset s parts

  pub write-Absorbed :
      (s : State) (bytes more : List ℕ) → Absorbed s bytes → Absorbed (write s more) (bytes ++ more)
  write-Absorbed s bytes more h parts =
      h (more ∷ parts) ∙ ap hash (sym (append_assoc bytes more (concat parts)))

  pub Absorbed-digest : (s : State) (bytes : List ℕ) → Absorbed s bytes → digest s ≡ hash bytes
  Absorbed-digest s bytes h = h [] ∙ ap hash (append-nil bytes)
