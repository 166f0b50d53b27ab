-- ===== src/Config/Laws.antt =====
-- CEIL_LOG2_U32 is the number of bits that an address needs.
use copy_space.Base.{ℕ, zero, suc, ◌+◌, ◌^◌, ◌≤◌, ◌<◌, ◌≡◌, leb, arith}
use copy_space.Base.{Bool-cases, leb→le, leb→lt, ◌==◌, inl, inr}
use copy_space.Config.{Config, ceil_log2_from, ceil_log2_u32, IsConfig, space_size, address_size}

-- The ladder from rung `k` finds an exponent that covers `x`, and the first that does.
ladder_bounds :
    (rungs k x : ℕ)
    → x ≤ 2 ^ (k + rungs)
    → (x ≤ 2 ^ ceil_log2_from rungs k x)
      × ((j : ℕ) → k ≤ j → j < ceil_log2_from rungs k x → 2 ^ j < x)
unfolding ceil_log2_from
ladder_bounds zero k x h =
    ((let e : k + 0 ≡ k = omega arith in rw e at h), λ j p q. absurd (omega arith))
ladder_bounds (suc rungs) k x h =
    let shift : k + suc rungs ≡ k + 1 + rungs = omega arith in
    let (covers, least) = ladder_bounds rungs (k + 1) x (rw shift at h) in
    elim (Bool-cases (leb x (2 ^ k))) [
      | inl fits ↦ rw fits (leb→le x (2 ^ k) fits, λ j p q. absurd (omega arith))
      | inr above ↦ rw above (
        covers,
        λ j p q. elim (Bool-cases (j == k)) [
          | inl e ↦ at_rung j k x (ground arith) (leb→lt x (2 ^ k) above)
          | inr ne ↦ least j (ground arith) q
        ],
      )
    ]
  where
    at_rung : (j k x : ℕ) → j ≡ k → 2 ^ k < x → 2 ^ j < x
    at_rung j k x e p = rw e p

-- For every x up to 2 ^ 31 the macro gives the least exponent whose power of two is at least x.
pub ceil_log2_u32_least :
    (x : ℕ) → x ≤ 2 ^ 31 → (x ≤ 2 ^ ceil_log2_u32 x) × ((j : ℕ) → j < ceil_log2_u32 x → 2 ^ j < x)
unfolding ceil_log2_u32
ceil_log2_u32_least x h =
    let (covers, least) = ladder_bounds 31 0 x h in (covers, λ j p. least j (omega arith) p)

-- Every bit position of a configured space fits an address field.
pub space_size-le : (c : Config) → IsConfig c → space_size c ≤ 2 ^ address_size c
space_size-le c v = (ceil_log2_u32_least (space_size c) (omega (arith, v))).0
