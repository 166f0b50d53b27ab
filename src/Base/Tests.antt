-- ===== src/Base/Tests.antt =====
-- Boolean tests on the native numbers, the conditional, and case splits that keep an equation.
use Prim.Native.Nat.{ℕ, zero, suc, ◌≤◌, ◌<◌, compare, Ordering}
use mathlib.Core.Path.{◌≡◌, refl}
use mathlib.Core.Logic.{◌↔◌, ◌⊎◌, inl, inr}
use mathlib.Core.Bool.{Bool, true, false, ◌&&◌}
use mathlib.Core.Option.{Option, none, some}
use native.Mathlib.Omega.{arith}

abbrev pub ltb : ℕ → ℕ → Bool
ltb a b = elim (compare a b) [ Ordering.lt ↦ true | _ ↦ false ]

abbrev pub leb : ℕ → ℕ → Bool
leb a b = elim (compare a b) [ Ordering.gt ↦ false | _ ↦ true ]

infix 50 ◌==◌
abbrev pub ◌==◌ : ℕ → ℕ → Bool
a == b = elim (compare a b) [ Ordering.eq ↦ true | _ ↦ false ]

infix 1 if◌then◌else◌
abbrev pub if◌then◌else◌ {ℓ} : {A : Type ℓ} → Bool → A → A → A
if true then x else y = x
if false then x else y = y

pub ltb→lt : (a b : ℕ) → ltb a b ≡ true → a < b
ltb→lt a b h = ground arith

pub lt→ltb : (a b : ℕ) → a < b → ltb a b ≡ true
lt→ltb a b h = ground arith

pub le→ltb : (a b : ℕ) → b ≤ a → ltb a b ≡ false
le→ltb a b h = ground arith

pub ltb→le : (a b : ℕ) → ltb a b ≡ false → b ≤ a
ltb→le a b h = ground arith

pub leb→le : (a b : ℕ) → leb a b ≡ true → a ≤ b
leb→le a b h = ground arith

pub leb→lt : (a b : ℕ) → leb a b ≡ false → b < a
leb→lt a b h = ground arith

pub ==_iff : (a b : ℕ) → ((a == b) ≡ true) ↔ (a ≡ b)
==_iff a b = ground arith

pub Bool-cases : (b : Bool) → (b ≡ true) ⊎ (b ≡ false)
Bool-cases true = inl refl
Bool-cases false = inr refl

-- Sequencing of steps that may fault.
infixl 5 ◌>>=◌
abbrev pub ◌>>=◌ {ℓ κ} : {A : Type ℓ} {B : Type κ} → Option A → (A → Option B) → Option B
none >>= f = none
some a >>= f = f a

-- A table whose entries are checked one by one, the last one first.
unfoldable pub every_entry : ℕ → (ℕ → Bool) → Bool
every_entry zero ok = true
every_entry (suc last) ok = ok last && every_entry last ok

pub every_entry-at :
    (size : ℕ) (ok : ℕ → Bool) (entry : ℕ)
    → every_entry size ok ≡ true
    → entry < size
    → ok entry ≡ true
unfolding every_entry
every_entry-at zero ok entry good inside = absurd (omega arith)
every_entry-at (suc last) ok entry good inside = elim (Bool-cases (entry == last)) [
  | inl newest ↦
      let same : entry ≡ last = ground arith in
      let here : ok last ≡ true = ground arith in rw same here
  | inr older ↦ every_entry-at last ok entry (ground arith) (ground arith)
]

-- The same over pairs of small numbers, for an equation.
pub table_sound :
    (a b : ℕ) (f g : ℕ → ℕ → ℕ)
    → every_entry a (λ x. every_entry b (λ y. f x y == g x y)) ≡ true
    → (x y : ℕ) → x < a
    → y < b
    → f x y ≡ g x y
table_sound a b f g h x y p q = (==_iff _ _).0 (every_entry-at b _ y (every_entry-at a _ x h p) q)
