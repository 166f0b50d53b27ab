-- ===== src/Memory/Stored.antt =====
-- Bytes written one after another, and the bytes of a range.
use copy_space.Base.{
  ℕ, zero, suc, ◌+◌, ◌<◌, ◌≤◌, ◌≡◌, refl, ap, ◌∙◌, [], ◌∷◌, some, arith, length, get_or,
}
use copy_space.Memory.{
  Bytes, u8, byte_at, put, store_bytes, store-eq, length-put, byte_at-put_self, byte_at-put_ne,
  byte_same, read,
}

pub record Stored (j : ℕ) (xs m m' : Bytes) : Type 0 where
  pub same_length : length m' ≡ length m
  pub inside : (k : ℕ) → k < length xs → byte_at m' (j + k) ≡ u8 (get_or xs k 0)
  pub outside_low : (b : ℕ) → b < j → byte_at m' b ≡ byte_at m b
  pub outside_high : (b : ℕ) → j + length xs ≤ b → byte_at m' b ≡ byte_at m b

Stored-step :
    (j x : ℕ) (xs m m' : Bytes)
    → j < length m
    → Stored (j + 1) xs (put m j x) m'
    → Stored j (x ∷ xs) m m'
Stored-step j x xs m m' h s = record {
  same_length = s.same_length ∙ length-put m j x;
  inside = elim [
    | zero ↦ λ p.
        byte_same m' {i = j + 0} {j = j} (omega arith)
        ∙ s.outside_low j (omega arith)
        ∙ byte_at-put_self m j x h
    | suc k ↦
        λ p. byte_same m' {i = j + suc k} {j = j + 1 + k} (omega arith) ∙ s.inside k (omega arith)
  ];
  outside_low = λ b p. s.outside_low b (omega arith) ∙ byte_at-put_ne m j b x (omega arith);
  outside_high = λ b p. s.outside_high b (omega arith) ∙ byte_at-put_ne m j b x (omega arith);
}

pub store_bytes-Stored :
    (m : Bytes) (j : ℕ) (xs : Bytes)
    → j + length xs ≤ length m
    → (m' : Bytes) × (store_bytes m j xs ≡ some m') × Stored j xs m m'
store_bytes-Stored m j [] h = (
  m,
  unfold store_bytes in refl,
  record {
    same_length = refl;
    inside = λ k p. elim p [ ];
    outside_low = λ b p. refl;
    outside_high = λ b p. refl;
  },
)
store_bytes-Stored m j (x ∷ xs) h =
    let (m', e, s) = store_bytes-Stored (put m j x) (j + 1) xs (omega (arith, length-put m j x)) in
    (m', first_store m j x xs (omega arith) ∙ e, Stored-step j x xs m m' (omega arith) s)
  where
    first_store :
        (m : Bytes) (j x : ℕ) (xs : Bytes)
        → j < length m
        → store_bytes m j (x ∷ xs) ≡ store_bytes (put m j x) (j + 1) xs
    first_store m j x xs p = unfold store_bytes in rw (store-eq m j x p)

pub length-read : (m : Bytes) (i n : ℕ) → length (read m i n) ≡ n
length-read m i zero = refl
length-read m i (suc n) = ap suc (length-read m (i + 1) n)
