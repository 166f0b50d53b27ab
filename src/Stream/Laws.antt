-- ===== src/Stream/Laws.antt =====
-- How much a stream hands over or takes.
use copy_space.Base.{ℕ, zero, suc, ◌≤◌, List, [], ◌∷◌, arith, length}
use copy_space.Memory.{Bytes}
use copy_space.Stream.{Item, byte, broken, ended, Input, Output, receive, fread, fwrite}

pub length-receive : (n : ℕ) (items : List Item) → length (receive n items).bytes ≤ n
unfolding receive
length-receive zero items = omega arith
length-receive (suc n) [] = omega arith
length-receive (suc n) (broken ∷ items) = omega arith
length-receive (suc n) (ended ∷ items) = omega arith
length-receive (suc n) (byte b ∷ items) = omega (arith, length-receive n items)

pub length-fread : (n : ℕ) (f : Input) → length (fread n f).0 ≤ n
unfolding fread
length-fread n f = length-receive n f.pending

pub fwrite-le : (bytes : Bytes) (f : Output) → (fwrite bytes f).0 ≤ length bytes
unfolding fwrite
fwrite-le bytes f = omega arith
