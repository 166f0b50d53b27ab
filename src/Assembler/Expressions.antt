-- ===== src/Assembler/Expressions.antt =====
-- Expressions: `eval_expr` reads back what a sum of atoms is written as.
use copy_space.Base.{
  ℕ, zero, suc, ◌+◌, ◌-◌, ◌%◌, ◌^◌, ◌≤◌, ◌≡◌, refl, ap, ◌∙◌, arith, List, [], ◌∷◌, ◌++◌, length,
  length-append, Bool, true, false, if◌then◌else◌,
}
use mathlib.Core.Path.{fun_ext}
use copy_space.Assembler.{
  Text, Symbol, Result, done, ◌>>=◌, is_operator, atom_chars, atom_value, apply_operator, eval_rest,
  eval_expr,
}

-- A term: whether it is taken off, and its atom.
pub record Term : Type 0 where
  pub minus : Bool
  pub atom : Text

abbrev pub sign : Bool → ℕ
sign minus = if minus then 45 else 43

abbrev pub print_terms : List Term → Text
print_terms [] = []
print_terms (t ∷ ts) = sign t.minus ∷ (t.atom ++ print_terms ts)

-- The terms one after the other, the failures of their atoms included. Sums are cut to 32 bits.
unfoldable pub add_terms : List Symbol → ℕ → List Term → Result ℕ
add_terms ss value [] = done value
add_terms ss value (t ∷ ts) = do
  atom ← atom_value ss t.atom
  add_terms ss (if t.minus then (value + (2 ^ 64 - atom)) % 2 ^ 32 else (value + atom) % 2 ^ 32) ts

abbrev pub NoOperator : Text → Type 0
NoOperator [] = Unit {0}
NoOperator (x ∷ xs) = (is_operator x ≡ false) × NoOperator xs

-- What the buffer of `eval_expr` holds, and what ends at an operator.
pub record IsAtom (a : Text) : Type 0 where
  pub some_characters : 1 ≤ length a
  pub short : length a ≤ 127
  pub no_operator : NoOperator a

abbrev pub AllAtoms : List Term → Type 0
AllAtoms [] = Unit {0}
AllAtoms (t ∷ ts) = IsAtom t.atom × AllAtoms ts

sign-operator : (minus : Bool) → is_operator (sign minus) ≡ true
sign-operator true = refl
sign-operator false = refl

stops : (room : ℕ) (ts : List Term) → atom_chars room (print_terms ts) ≡ done ([], print_terms ts)
unfolding atom_chars
stops room [] = refl
stops zero (t ∷ ts) = let op = sign-operator t.minus in rw op refl
stops (suc room) (t ∷ ts) = let op = sign-operator t.minus in rw op refl

one_atom :
    (room : ℕ) (a : Text) (ts : List Term)
    → length a ≤ room
    → NoOperator a
    → atom_chars room (a ++ print_terms ts) ≡ done (a, print_terms ts)
unfolding atom_chars
one_atom room [] ts h w = stops room ts
one_atom zero (x ∷ a) ts h w = absurd (omega arith)
one_atom (suc room) (x ∷ a) ts h (w, ws) =
    let rest = one_atom room a ts (omega arith) ws in rw (w, rest) refl

applied :
    (minus : Bool) (value atom : ℕ)
    → apply_operator (sign minus) value atom
      ≡ (if minus then (value + (2 ^ 64 - atom)) % 2 ^ 32 else (value + atom) % 2 ^ 32)
unfolding apply_operator
applied true value atom = refl
applied false value atom = refl

one_round :
    (fuel : ℕ) (ss : List Symbol) (value op : ℕ) (a p : Text)
    → 1 ≤ length a
    → eval_rest (suc fuel) ss value (op ∷ (a ++ p)) ≡ (
        atom_chars 127 (a ++ p) >>= λ r.
        atom_value ss r.0 >>= λ atom. eval_rest fuel ss (apply_operator op value atom) r.1)
unfolding eval_rest
one_round fuel ss value op [] p h = absurd (omega arith)
one_round fuel ss value op (x ∷ a) p h = refl

rest_sum :
    (fuel : ℕ) (ss : List Symbol) (value : ℕ) (ts : List Term)
    → AllAtoms ts
    → length (print_terms ts) ≤ fuel
    → eval_rest fuel ss value (print_terms ts) ≡ add_terms ss value ts
unfolding eval_rest add_terms
rest_sum zero ss value [] w h = refl
rest_sum (suc fuel) ss value [] w h = refl
rest_sum zero ss value (t ∷ ts) w h = absurd (omega arith)
rest_sum (suc fuel) ss value (t ∷ ts) (w, ws) h =
    let p = print_terms ts in
    one_round fuel ss value (sign t.minus) t.atom p w.some_characters
    ∙ ap
        (λ r. r >>= λ q. atom_value ss q.0 >>= λ atom.
          eval_rest fuel ss (apply_operator (sign t.minus) value atom) q.1)
        (one_atom 127 t.atom ts w.short w.no_operator)
    ∙ ap (λ k. atom_value ss t.atom >>= k)
        (fun_ext λ atom.
          ap (λ x. eval_rest fuel ss x p) (applied t.minus value atom)
          ∙ rest_sum fuel ss _ ts ws (omega (arith, length-append t.atom p)))

first_round :
    (ss : List Symbol) (a p : Text)
    → 1 ≤ length a
    → eval_expr ss (a ++ p) ≡ (
        atom_chars 127 (a ++ p) >>= λ r.
        atom_value ss r.0 >>= λ value. eval_rest (length r.1) ss value r.1)
unfolding eval_expr
first_round ss [] p h = absurd (omega arith)
first_round ss (x ∷ a) p h = refl

-- An expression that is written as an atom followed by signed atoms, each of 1 to 127 characters
-- that are no operator, has the value of the first atom with the others added or taken off from
-- left to right, cut to 32 bits after each, or the failure of the first atom that has one.
pub eval_expr-print :
    (ss : List Symbol) (first : Text) (ts : List Term)
    → IsAtom first
    → AllAtoms ts
    → eval_expr ss (first ++ print_terms ts)
      ≡ (atom_value ss first >>= λ value. add_terms ss value ts)
eval_expr-print ss first ts w ws =
    let p = print_terms ts in
    first_round ss first p w.some_characters
    ∙ ap (λ r. r >>= λ q. atom_value ss q.0 >>= λ value. eval_rest (length q.1) ss value q.1)
        (one_atom 127 first ts w.short w.no_operator)
    ∙ ap (λ k. atom_value ss first >>= k)
        (fun_ext λ value. rest_sum (length p) ss value ts ws (omega arith))
