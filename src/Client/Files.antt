-- ===== src/Client/Files.antt =====
-- What writing a part into a local file does (`writing_task` in rstr_client/src/client.rs).
use rstr.Prelude.{
  ℕ, zero, suc, ◌+◌, ◌-◌, ◌≡◌, refl, sym, ap, ◌∙◌, List, [], ◌∷◌, ◌++◌, length, take, drop,
  replicate, arith, length-append, length-take, length-replicate, take-length, append-nil,
  take-append_length,
}
use rstr.Client.Chunks.{set_len, write_at}

pub length-set_len : (n : ℕ) (bytes : List ℕ) → length (set_len n bytes) ≡ n
unfolding set_len
length-set_len n bytes = omega (
  arith,
  length-append (take n bytes) (replicate (n - length bytes) 0),
  length-take n bytes,
  length-replicate {A = ℕ} (n - length bytes) 0,
)

pub set_len_same : (n : ℕ) (bytes : List ℕ) → length bytes ≡ n → set_len n bytes ≡ bytes
unfolding set_len
set_len_same n bytes h =
    let none_left : n - length bytes ≡ 0 = omega arith in
    rw none_left
      (append-nil (take n bytes) ∙ ap (λ (m : ℕ). take m bytes) (sym h) ∙ take-length bytes)

take_front : (before after : List ℕ) (n : ℕ) → length before ≡ n → take n (before ++ after) ≡ before
take_front before after n h =
    ap (λ (m : ℕ). take m (before ++ after)) (sym h) ∙ take-append_length before after

drop_front :
    (before buffer after : List ℕ) (n : ℕ)
    → length before ≡ n
    → drop (n + length buffer) (before ++ after) ≡ drop (length buffer) after
drop_front [] buffer after n h = ap (λ (m : ℕ). drop m after) (omega arith)
drop_front (x ∷ before) buffer after zero h = absurd (omega arith)
drop_front (x ∷ before) buffer after (suc n) h =
    ap (λ (m : ℕ). drop m (x ∷ (before ++ after))) {y = suc (n + length buffer)} (omega arith)
    ∙ drop_front before buffer after n (omega arith)

-- A write where the bytes before it end replaces as many of the bytes after them.
pub write_at-append :
    (offset : ℕ) (before buffer after : List ℕ)
    → length before ≡ offset
    → write_at offset buffer (before ++ after) ≡ before ++ (buffer ++ drop (length buffer) after)
unfolding write_at set_len
write_at-append offset before [] after h = refl
write_at-append offset before (b ∷ buffer) after h =
    let none_left : offset - length (before ++ after) ≡ 0 =
      omega (arith, length-append before after) in
    rw none_left (
      rw (append-nil (take offset (before ++ after)), take_front before after offset h)
        (ap (λ rest. before ++ ((b ∷ buffer) ++ rest))
          (drop_front before (b ∷ buffer) after offset h)))
