-- ===== src/Assembler.antt =====
-- src/assembler.c: a line is a definition `name value`, an instruction of three expressions, also
-- after the word `copy`, or an `include`. A text is the list of its characters, without the null.
-- `fail` ends the program; its message is a value here. `fopen` and `fgets` are a parameter: what
-- `include` makes of the state. The characters are those of the "C" locale.
pub mod Code
pub mod Tokens
unfoldable pub use Tokens.*
pub mod Symbols
pub mod Expressions
pub mod Rows
mod Tests
use copy_space.Base.{
  ℕ, zero, suc, ◌+◌, ◌-◌, ◌*◌, ◌/◌, ◌%◌, ◌^◌, Option, none, some, List, [], ◌∷◌, set, get_elem?,
  length, take,
}
use copy_space.Base.{Bool, true, false, not, ◌&&◌, ◌||◌, ltb, leb, ◌==◌, if◌then◌else◌}
use copy_space.Memory.{Bytes}
use copy_space.Field.{u32, write_field_bits}
use copy_space.Config.{
  Config, ceil_log2_u32, space_size, address_size, n_size, instruction_size, processor_start,
  processor_bits, n_offset, dst_offset, src_offset,
}
use copy_space.Space.{Instruction}
use copy_space.Assembler.Code.{write_code}

-- The messages of `fail`.
pub data Complaint : Type 0 where
  symbol_table_overflow invalid_literal unknown_symbol empty_expression expression_too_long :
      Complaint
  truncated_expression too_many_instructions missing_include copy_requires_3 extra_token : Complaint
  missing_token invalid_name : Complaint

-- A call goes on with a value, ends the program, or leaves the buffer.
pub data Result {ℓ} (A : Type ℓ) : Type ℓ where
  done : A → Result A
  fail : Complaint → Result A
  fault : Result A

infixl 5 ◌>>=◌
abbrev pub ◌>>=◌ {ℓ κ} : {A : Type ℓ} {B : Type κ} → Result A → (A → Result B) → Result B
done a >>= f = f a
fail c >>= f = fail c
fault >>= f = fault

abbrev pub in_bounds {ℓ} : {A : Type ℓ} → Option A → Result A
in_bounds none = fault
in_bounds (some a) = done a

pub record Symbol : Type 0 where
  pub name : Text
  pub value : ℕ

-- The symbols, the buffer `space`, the rows and how many of them were emitted.
pub record Assembly : Type 0 where
  pub symbols : List Symbol
  pub space : Bytes
  pub processor : List Instruction
  pub instruction_n : ℕ

abbrev pub max_symbols : ℕ
max_symbols = 2048

unfoldable pub find_symbol : List Symbol → Text → Option ℕ
find_symbol [] name = none
find_symbol (s ∷ ss) name = if same_text s.name name then some s.value else find_symbol ss name

-- `s->value = value` for the symbol that was found.
unfoldable pub set_value : List Symbol → Text → ℕ → List Symbol
set_value [] name value = []
set_value (s ∷ ss) name value =
    if same_text s.name name then record s { value = value } ∷ ss else s ∷ set_value ss name value

-- A new entry at the end of the table; its name is cut to 63 characters.
unfoldable pub add_symbol : List Symbol → Text → ℕ → List Symbol
add_symbol [] name value = record { name = take 63 name; value = value } ∷ []
add_symbol (s ∷ ss) name value = s ∷ add_symbol ss name value

abbrev pub define_found : List Symbol → Text → ℕ → Option ℕ → Result (List Symbol)
define_found ss name value (some old) = done (set_value ss name value)
define_found ss name value none =
    if leb max_symbols (length ss)
    then fail symbol_table_overflow
    else done (add_symbol ss name value)

unfoldable pub define_symbol : List Symbol → Text → ℕ → Result (List Symbol)
define_symbol ss name value = define_found ss name value (find_symbol ss name)

-- The digits after `0b`; the sum wraps.
pub binary_digits : ℕ → Text → Result ℕ
binary_digits value [] = done value
binary_digits value (x ∷ xs) =
    let rest = binary_digits ((value * 2 + (x - 48)) % 2 ^ 64) xs in
    if x == 48 || x == 49 then rest else fail invalid_literal

digit_value : ℕ → ℕ
digit_value x =
    if is_digit x
    then x - 48
    else if leb 97 x && leb x 122
    then x - 87
    else if leb 65 x && leb x 90
    then x - 55
    else 36

-- All of a text as digits of a base, `none` where `strtoul` stops before its end.
based_digits : ℕ → ℕ → Text → Option ℕ
based_digits base value [] = some value
based_digits base value (x ∷ xs) =
    let rest = based_digits base (value * base + digit_value x) xs in
    if ltb (digit_value x) base then rest else none

some_digits : ℕ → Text → Option ℕ
some_digits base [] = none
some_digits base (x ∷ xs) = based_digits base 0 (x ∷ xs)

-- `strtoul(token, &end, 0)` where it takes the whole token, which starts with a digit.
strtoul : Text → Option ℕ
strtoul [] = none
strtoul (x ∷ []) = some_digits 10 (x ∷ [])
strtoul (x ∷ y ∷ xs) =
    if x == 48 && (y == 120 || y == 88)
    then some_digits 16 xs
    else if x == 48
    then based_digits 8 0 (y ∷ xs)
    else some_digits 10 (x ∷ y ∷ xs)

-- A value in range, or ERANGE or an end before the end.
literal_value : Option ℕ → Result ℕ
literal_value none = fail invalid_literal
literal_value (some value) = if ltb value (2 ^ 64) then done value else fail invalid_literal

pub parse_number : Text → Result ℕ
parse_number [] = literal_value (strtoul [])
parse_number (x ∷ []) = literal_value (strtoul (x ∷ []))
parse_number (x ∷ y ∷ xs) =
    if x == 48 && y == 98 then binary_digits 0 xs else literal_value (strtoul (x ∷ y ∷ xs))

symbol_value : Option ℕ → Result ℕ
symbol_value none = fail unknown_symbol
symbol_value (some value) = done value

pub atom_value : List Symbol → Text → Result ℕ
atom_value ss [] = symbol_value (find_symbol ss [])
atom_value ss (x ∷ xs) =
    if is_digit x then parse_number (x ∷ xs) else symbol_value (find_symbol ss (x ∷ xs))

abbrev pub is_operator : ℕ → Bool
is_operator x = x == 43 || x == 45

-- The characters up to an operator, for a buffer that holds `room` of them.
unfoldable pub atom_chars : ℕ → Text → Result (Text × Text)
atom_chars room [] = done ([], [])
atom_chars zero (x ∷ xs) = if is_operator x then done ([], x ∷ xs) else fail expression_too_long
atom_chars (suc room) (x ∷ xs) =
    let rest = atom_chars room xs >>= λ r. done (x ∷ r.0, r.1) in
    if is_operator x then done ([], x ∷ xs) else rest

-- One operator and its atom; the first character is the operator.
pub apply_operator : ℕ → ℕ → ℕ → ℕ
apply_operator op value atom =
    if op == 43 then u32 (value + atom) else u32 (value + (2 ^ 64 - atom))

-- `while(*p)`, with fuel for the rounds: each takes at least the operator.
unfoldable pub eval_rest : ℕ → List Symbol → ℕ → Text → Result ℕ
eval_rest fuel ss value [] = done value
eval_rest zero ss value (op ∷ p) = fault
eval_rest (suc fuel) ss value (op ∷ []) = fail truncated_expression
eval_rest (suc fuel) ss value (op ∷ x ∷ p) = do
  r ← atom_chars 127 (x ∷ p)
  atom ← atom_value ss r.0
  eval_rest fuel ss (apply_operator op value atom) r.1

unfoldable pub eval_expr : List Symbol → Text → Result ℕ
eval_expr ss [] = fail empty_expression
eval_expr ss (x ∷ xs) = do
  r ← atom_chars 127 (x ∷ xs)
  value ← atom_value ss r.0
  eval_rest (length r.1) ss value r.1

abbrev pub core_layer_bits : Config → ℕ
core_layer_bits c = 4 * instruction_size c

abbrev pub core_input_bits : Config → ℕ
core_input_bits c = ((core_layer_bits c + 8 - 1) / 8 + 1) * 8

abbrev pub core_buffer_start : Config → ℕ
core_buffer_start c = (processor_bits c + 8 - 1) / 8 * 8

abbrev pub core_boot_bits : Config → ℕ
core_boot_bits c = 2 ^ ceil_log2_u32 (core_layer_bits c)

abbrev pub core_restart_start : Config → ℕ
core_restart_start c = core_buffer_start c + core_boot_bits c

pub init_predefined_symbols : Config → Result (List Symbol)
init_predefined_symbols c = do
  s1 ← define_symbol [] (83 ∷ 80 ∷ 65 ∷ 67 ∷ 69 ∷ 95 ∷ 83 ∷ 73 ∷ 90 ∷ 69 ∷ []) (space_size c)
  s2 ← define_symbol s1 (80 ∷ 82 ∷ 79 ∷ 67 ∷ 69 ∷ 83 ∷ 83 ∷ 79 ∷ 82 ∷ 95 ∷ 78 ∷ []) (c.processor_n)
  s3 ←
      define_symbol s2
        (80 ∷ 82 ∷ 79 ∷ 67 ∷ 69 ∷ 83 ∷ 83 ∷ 79 ∷ 82 ∷ 95 ∷ 83 ∷ 84 ∷ 65 ∷ 82 ∷ 84 ∷ [])
        (processor_start)
  s4 ←
      define_symbol s3
        (73 ∷ 78 ∷ 83 ∷ 84 ∷ 82 ∷ 85 ∷ 67 ∷ 84 ∷ 73 ∷ 79 ∷ 78 ∷ 95 ∷ 83 ∷ 73 ∷ 90 ∷ 69 ∷ [])
        (instruction_size c)
  s5 ← define_symbol s4 (78 ∷ 95 ∷ 83 ∷ 73 ∷ 90 ∷ 69 ∷ []) (n_size c)
  s6 ←
      define_symbol s5 (65 ∷ 68 ∷ 68 ∷ 82 ∷ 69 ∷ 83 ∷ 83 ∷ 95 ∷ 83 ∷ 73 ∷ 90 ∷ 69 ∷ [])
        (address_size c)
  s7 ←
      define_symbol s6 (80 ∷ 82 ∷ 79 ∷ 67 ∷ 69 ∷ 83 ∷ 83 ∷ 79 ∷ 82 ∷ 95 ∷ 66 ∷ 73 ∷ 84 ∷ 83 ∷ [])
        (processor_bits c)
  s8 ←
      define_symbol s7
        (67 ∷ 79 ∷ 82 ∷ 69 ∷ 95 ∷ 76 ∷ 65 ∷ 89 ∷ 69 ∷ 82 ∷ 95 ∷ 66 ∷ 73 ∷ 84 ∷ 83 ∷ [])
        (core_layer_bits c)
  s9 ←
      define_symbol s8
        (67 ∷ 79 ∷ 82 ∷ 69 ∷ 95 ∷ 73 ∷ 78 ∷ 80 ∷ 85 ∷ 84 ∷ 95 ∷ 66 ∷ 73 ∷ 84 ∷ 83 ∷ [])
        (core_input_bits c)
  s10 ←
      define_symbol s9
        (67 ∷ 79 ∷ 82 ∷ 69 ∷ 95 ∷ 66 ∷ 85 ∷ 70 ∷ 70 ∷ 69 ∷ 82 ∷ 95 ∷ 83 ∷ 84 ∷ 65 ∷ 82 ∷ 84 ∷ [])
        (core_buffer_start c)
  define_symbol s10
      (67 ∷ 79 ∷ 82 ∷ 69 ∷ 95 ∷ 82 ∷ 69 ∷ 83 ∷ 84 ∷ 65 ∷ 82 ∷ 84 ∷ 95 ∷ 83 ∷ 84 ∷ 65 ∷ 82 ∷ 84 ∷ [])
      (core_restart_start c)

unfoldable pub emit_instruction : Config → Assembly → Instruction → Result Assembly
emit_instruction c s r =
    if leb c.processor_n s.instruction_n then fail too_many_instructions else do
      m ← in_bounds (write_code c s.space s.instruction_n r)
      done (record s {
        space = m;
        processor = set s.processor s.instruction_n r;
        instruction_n = s.instruction_n + 1;
      })

-- The three values of an instruction, cast to `size`.
emit_values : Config → Assembly → Text → Text → Text → Result Assembly
emit_values c s t1 t2 t3 = do
  n ← eval_expr s.symbols t1
  dst ← eval_expr s.symbols t2
  src ← eval_expr s.symbols t3
  emit_instruction c s (record { n = u32 n; dst = u32 dst; src = u32 src })

is_empty : Text → Bool
is_empty [] = true
is_empty (x ∷ xs) = false

define_line : Assembly → Text → Text → Result Assembly
define_line s t0 t1 = if not (is_name_start t0) then fail invalid_name else do
  value ← eval_expr s.symbols t1
  symbols ← define_symbol s.symbols t0 value
  done (record s { symbols = symbols })

-- A line without its comment; `include` is what the file of that name makes of the state.
pub compile_tokens :
    Config → (Text → Assembly → Result Assembly) → Assembly → Text → Result Assembly
compile_tokens c include s line =
    let t0 = read_token line in
    let t1 = read_token t0.1 in
    let t2 = read_token t1.1 in
    let t3 = read_token t2.1 in
    let extra = read_token t3.1 in
    if is_empty t0.0
    then done s
    else if same_text t0.0 (105 ∷ 110 ∷ 99 ∷ 108 ∷ 117 ∷ 100 ∷ 101 ∷ [])
    then if is_empty t1.0 then fail missing_include else include t1.0 s
    else if same_text t0.0 (99 ∷ 111 ∷ 112 ∷ 121 ∷ [])
    then if is_empty t1.0 || is_empty t2.0 || is_empty t3.0
      then fail copy_requires_3
      else if not (is_empty extra.0)
      then fail extra_token
      else emit_values c s t1.0 t2.0 t3.0
    else if is_empty t1.0
    then fail missing_token
    else if is_empty t2.0
    then define_line s t0.0 t1.0
    else if not (is_empty t3.0)
    then fail extra_token
    else emit_values c s t0.0 t1.0 t2.0

pub compile_line : Config → (Text → Assembly → Result Assembly) → Assembly → Text → Result Assembly
compile_line c include s line = compile_tokens c include s (strip_comment line)

-- `compile_file`, from the lines that `fgets` hands over.
pub compile_lines :
    Config → (Text → Assembly → Result Assembly) → Assembly → List Text → Result Assembly
compile_lines c include s [] = done s
compile_lines c include s (line ∷ lines) = do
  s' ← compile_line c include s line
  compile_lines c include s' lines
