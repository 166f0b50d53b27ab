-- ===== src/Assembler/Tokens.antt =====
-- src/assembler.c: the characters and tokens of a line.
use copy_space.Base.{ℕ, zero, suc, List, [], ◌∷◌}
use copy_space.Base.{Bool, true, false, ◌&&◌, ◌||◌, leb, ◌==◌, if◌then◌else◌}

abbrev pub Text : Type 0
Text = List ℕ

abbrev pub is_digit : ℕ → Bool
is_digit x = leb 48 x && leb x 57

abbrev is_alpha : ℕ → Bool
is_alpha x = (leb 65 x && leb x 90) || (leb 97 x && leb x 122)

abbrev is_space : ℕ → Bool
is_space x = x == 32 || (leb 9 x && leb x 13)

pub is_name_start : Text → Bool
is_name_start [] = false
is_name_start (x ∷ xs) = is_alpha x || x == 95

pub skip_spaces : Text → Text
skip_spaces [] = []
skip_spaces (x ∷ xs) = if is_space x then skip_spaces xs else x ∷ xs

-- The text before the first `;`.
pub strip_comment : Text → Text
strip_comment [] = []
strip_comment (x ∷ xs) = if x == 59 then [] else x ∷ strip_comment xs

-- What a buffer takes from the front of a text, up to a character that stops it.
pub token_chars : (ℕ → Bool) → ℕ → Text → Text × Text
token_chars stop zero xs = ([], xs)
token_chars stop (suc room) [] = ([], [])
token_chars stop (suc room) (x ∷ xs) =
    let r = token_chars stop room xs in if stop x then ([], x ∷ xs) else (x ∷ r.0, r.1)

-- The closing quote, if the buffer was not full before it.
skip_quote : Text → Text
skip_quote [] = []
skip_quote (x ∷ xs) = if x == 34 then xs else x ∷ xs

token_at : Text → Text × Text
token_at [] = ([], [])
token_at (x ∷ xs) =
    let quoted = token_chars (λ y. y == 34) 255 xs in
    if x == 34 then (quoted.0, skip_quote quoted.1) else token_chars is_space 255 (x ∷ xs)

-- The token, empty where `read_token` answers 0, and the rest of the line.
pub read_token : Text → Text × Text
read_token p = token_at (skip_spaces p)

-- `strcmp(a, b) == 0`.
unfoldable pub same_text : Text → Text → Bool
same_text [] [] = true
same_text [] (y ∷ ys) = false
same_text (x ∷ xs) [] = false
same_text (x ∷ xs) (y ∷ ys) = x == y && same_text xs ys
