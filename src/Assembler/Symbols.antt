-- ===== src/Assembler/Symbols.antt =====
-- The symbol table as a map from names to values.
use copy_space.Base.{
  ℕ, zero, suc, ◌≤◌, ◌<◌, ◌≡◌, ◌≢◌, refl, sym, ap, ap₂, ◌∙◌, arith, Option, none, some, List, [],
  ◌∷◌, length, take, true, false, leb, ◌==◌, if◌then◌else◌, Bool-cases, inl, inr,
}
use copy_space.Assembler.{
  Text, Result, done, fail, symbol_table_overflow, Symbol, max_symbols, same_text, find_symbol,
  set_value, add_symbol, define_found, define_symbol,
}

same_text_refl : (a : Text) → same_text a a ≡ true
unfolding same_text
same_text_refl [] = refl
same_text_refl (x ∷ a) =
    let same : (x == x) ≡ true = ground arith in let rest = same_text_refl a in rw (same, rest) refl

same_text-eq : (a b : Text) → same_text a b ≡ true → a ≡ b
unfolding same_text
same_text-eq [] [] h = refl
same_text-eq [] (y ∷ b) h = absurd (ground (arith, h))
same_text-eq (x ∷ a) [] h = absurd (ground (arith, h))
same_text-eq (x ∷ a) (y ∷ b) h =
    let first : (x == y) ≡ true = ground (arith, h) in
    let rest : same_text a b ≡ true = ground (arith, h) in
    let same : x ≡ y = ground arith in ap₂ (λ u v. u ∷ v) same (same_text-eq a b rest)

same_text-ne : (a b : Text) → a ≢ b → same_text a b ≡ false
same_text-ne a b h = elim (Bool-cases (same_text a b)) [
  | inl e ↦ absurd (h (same_text-eq a b e))
  | inr e ↦ e
]

pub take_all : (n : ℕ) (a : Text) → length a ≤ n → take n a ≡ a
take_all zero [] h = refl
take_all zero (x ∷ a) h = absurd (omega arith)
take_all (suc n) [] h = refl
take_all (suc n) (x ∷ a) h = ap (λ t. x ∷ t) (take_all n a (omega arith))

length-take-le : (n : ℕ) (a : Text) → length (take n a) ≤ n
length-take-le zero a = omega arith
length-take-le (suc n) [] = omega arith
length-take-le (suc n) (x ∷ a) = omega (arith, length-take-le n a)

-- `ss'` has the value of a name, and all other names as `ss` has them.
pub record Updated (ss : List Symbol) (name : Text) (value : ℕ) (ss' : List Symbol) : Type 0 where
  pub found : find_symbol ss' name ≡ some value
  pub others : (other : Text) → other ≢ name → find_symbol ss' other ≡ find_symbol ss other

-- A name that is not the first symbol's.
skipped :
    (s : Symbol) (ss ss' : List Symbol) (name : Text) (value : ℕ)
    → same_text s.name name ≡ false
    → Updated ss name value ss'
    → Updated (s ∷ ss) name value (s ∷ ss')
unfolding find_symbol
skipped s ss ss' name value e u = record {
  found = rw e u.found;
  others =
      λ other ne. ap (λ t. if same_text s.name other then some s.value else t) (u.others other ne);
}

set_value-Updated :
    (ss : List Symbol) (name : Text) (value old : ℕ)
    → find_symbol ss name ≡ some old
    → Updated ss name value (set_value ss name value)
unfolding set_value find_symbol
set_value-Updated [] name value old h = absurd (cc)
set_value-Updated (s ∷ ss) name value old h = elim (Bool-cases (same_text s.name name)) [
  | inl e ↦
      let same = same_text-eq s.name name e in
      rw e (record {
        found = rw e refl;
        others = λ other ne.
            let apart = same_text-ne s.name other (λ q. ne (sym q ∙ same)) in rw apart refl;
      })
  | inr e ↦ rw e (
      skipped s ss (set_value ss name value) name value e
        (set_value-Updated ss name value old (sym (rw e refl) ∙ h)))
]

add_symbol-Updated :
    (ss : List Symbol) (name : Text) (value : ℕ)
    → length name ≤ 63
    → find_symbol ss name ≡ none
    → Updated ss name value (add_symbol ss name value)
unfolding add_symbol find_symbol
add_symbol-Updated [] name value h e =
    let whole = take_all 63 name h in
    let here = same_text_refl name in
    record {
      found = rw (whole, here) refl;
      others = λ other ne.
          let apart = same_text-ne name other (λ q. ne (sym q)) in rw (whole, apart) refl;
    }
add_symbol-Updated (s ∷ ss) name value h e = elim (Bool-cases (same_text s.name name)) [
  | inl first ↦ let clash : some s.value ≡ none = sym (rw first refl) ∙ e in absurd cc
  | inr later ↦
      skipped s ss (add_symbol ss name value) name value later
        (add_symbol-Updated ss name value h (sym (rw later refl) ∙ e))
]

-- The two ways in which `define_symbol` ends.
pub data Defined (ss : List Symbol) (name : Text) (value : ℕ) : Result (List Symbol) → Type 0 where
  table_full :
      find_symbol ss name ≡ none
      → max_symbols ≤ length ss
      → Defined ss name value (fail symbol_table_overflow)
  defined :
      {ss' : List Symbol}
      → (find_symbol ss name ≡ none → length ss < max_symbols)
      → Updated ss name value ss'
      → Defined ss name value (done ss')

-- For a name of at most 63 characters, the table that `define_symbol` leaves gives that name the
-- value and leaves every other name as it was, whether the name was there before or not. The program
-- ends with an overflow exactly where a new name meets a full table.
pub define_symbol-Defined :
    (ss : List Symbol) (name : Text) (value : ℕ)
    → length name ≤ 63
    → Defined ss name value (define_symbol ss name value)
unfolding define_symbol
define_symbol-Defined ss name value h = by_lookup (find_symbol ss name) refl
  where
    by_lookup :
        (r : Option ℕ)
        → find_symbol ss name ≡ r
        → Defined ss name value (define_found ss name value r)
    by_lookup (some old) e = defined (λ new. absurd (cc)) (set_value-Updated ss name value old e)
    by_lookup none e = elim (Bool-cases (leb max_symbols (length ss))) [
      | inl full ↦ rw full (table_full e (ground arith))
      | inr room ↦
          rw room (defined (λ new. ground (arith, room)) (add_symbol-Updated ss name value h e))
    ]

-- A name of more than 63 characters that is not in the table is still not found after
-- `define_symbol` added it, since the entry holds the first 63 characters only.
pub add_symbol-unfound :
    (ss : List Symbol) (name : Text) (value : ℕ)
    → 64 ≤ length name
    → find_symbol ss name ≡ none
    → find_symbol (add_symbol ss name value) name ≡ none
unfolding add_symbol find_symbol
add_symbol-unfound [] name value h e =
    let cut = same_text-ne (take 63 name) name (λ q. shorter (ap length q)) in rw cut refl
  where
    shorter : length (take 63 name) ≢ length name
    shorter = let short = length-take-le 63 name in omega arith
add_symbol-unfound (s ∷ ss) name value h e = elim (Bool-cases (same_text s.name name)) [
  | inl first ↦ let clash : some s.value ≡ none = sym (rw first refl) ∙ e in absurd cc
  | inr later ↦ rw later (add_symbol-unfound ss name value h (sym (rw later refl) ∙ e))
]
