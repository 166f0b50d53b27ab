-- ===== src/Assembler/Tests.antt =====
-- The assembler on small inputs, and its theorems at concrete ones.
use copy_space.Base.{◌≡◌, refl, arith, none, true, false, List, [], ◌∷◌, ◌++◌, replicate}
use copy_space.Config.{Config, IsConfig, ceil_log2_u32}
use copy_space.Space.{Instruction}
use copy_space.Assembler.{
  Assembly, Text, same_text, find_symbol, add_symbol, define_symbol, emit_instruction, eval_expr,
  atom_value, ◌>>=◌,
}
use copy_space.Assembler.Expressions.{Term, print_terms, add_terms, eval_expr-print}
use copy_space.Assembler.Symbols.{Defined, define_symbol-Defined, add_symbol-unfound}
use copy_space.Assembler.Rows.{Emitted, emit_instruction-Emitted}

abbrev small : Config
small = record { vm_space_bytes = 64; processor_n = 4 }

small-IsConfig : IsConfig small
unfolding ceil_log2_u32
small-IsConfig = omega arith

abbrev row : Instruction
row = record { n = 16; dst = 256; src = 3 }

abbrev assembly : Assembly
assembly = record {
  symbols = record { name = 110 ∷ []; value = 5 } ∷ [];
  space = replicate 64 0;
  processor = [];
  instruction_n = 2;
}

abbrev terms : List Term
terms = record { minus = false; atom = 110 ∷ [] } ∷ record { minus = true; atom = 49 ∷ [] } ∷ []

emit_instruction-Emitted_example : Emitted small assembly row (emit_instruction small assembly row)
unfolding ceil_log2_u32
emit_instruction-Emitted_example = emit_instruction-Emitted small assembly row small-IsConfig refl

define_symbol-Defined_example :
    Defined assembly.symbols (110 ∷ 109 ∷ []) 7 (define_symbol assembly.symbols (110 ∷ 109 ∷ []) 7)
define_symbol-Defined_example =
    define_symbol-Defined assembly.symbols (110 ∷ 109 ∷ []) 7 (omega arith)

abbrev long_name : Text
long_name = replicate 64 97

not_there : find_symbol assembly.symbols long_name ≡ none
unfolding find_symbol same_text
not_there = refl

add_symbol-unfound_example : find_symbol (add_symbol assembly.symbols long_name 9) long_name ≡ none
add_symbol-unfound_example = add_symbol-unfound assembly.symbols long_name 9 (omega arith) not_there

-- `2+n-1`.
eval_expr-print_example :
    eval_expr assembly.symbols ((50 ∷ []) ++ print_terms terms)
    ≡ (atom_value assembly.symbols (50 ∷ []) >>= λ value. add_terms assembly.symbols value terms)
eval_expr-print_example =
    eval_expr-print assembly.symbols (50 ∷ []) terms
      (record { some_characters = omega arith; short = omega arith; no_operator = (refl, tt) })
      (
        record { some_characters = omega arith; short = omega arith; no_operator = (refl, tt) },
        (
          record { some_characters = omega arith; short = omega arith; no_operator = (refl, tt) },
          tt,
        ),
      )
