-- ===== src/Stream.antt =====
-- The `FILE` objects that src/space.c reads and writes, as far as `fread`, `fwrite`, `ferror` and
-- `clearerr` show them.
pub mod Laws
use copy_space.Base.{
  ℕ, zero, suc, ◌+◌, ◌-◌, min, Bool, true, false, List, [], ◌∷◌, ◌++◌, length, take,
}
use copy_space.Memory.{Bytes}

-- What is still to come from an input: bytes, reads that the system fails, and ends of the file that
-- a read meets. After each of these a later read, for which `clearerr` clears the state, may get more
-- bytes; behind the last item the file has ended for good.
pub data Item : Type 0 where
  byte : ℕ → Item
  broken : Item
  ended : Item

pub record Input : Type 0 where
  pub pending : List Item
  pub failed : Bool

-- What an output has taken, and how many bytes each of the calls to come takes at most before it
-- fails; the calls behind the last of these take nothing.
pub record Output : Type 0 where
  pub written : Bytes
  pub room : List ℕ
  pub failed : Bool

-- What one `fread` of single bytes hands over.
pub record Got : Type 0 where
  pub bytes : Bytes
  pub rest : List Item
  pub broke : Bool

abbrev pub got_more : ℕ → Got → Got
got_more b g = record g { bytes = b ∷ g.bytes }

pub receive : ℕ → List Item → Got
receive zero items = record { bytes = []; rest = items; broke = false }
receive (suc n) [] = record { bytes = []; rest = []; broke = false }
receive (suc n) (broken ∷ items) = record { bytes = []; rest = items; broke = true }
receive (suc n) (ended ∷ items) = record { bytes = []; rest = items; broke = false }
receive (suc n) (byte b ∷ items) = got_more b (receive n items)

-- `clearerr(f); fread(buffer, 1, n, f)`; `ferror` is then the field `failed`.
unfoldable pub fread : ℕ → Input → Bytes × Input
fread n f = let g = receive n f.pending in (g.bytes, record { pending = g.rest; failed = g.broke })

-- What the next call takes, and what is left for those after it.
abbrev pub now : List ℕ → ℕ
now [] = 0
now (k ∷ room) = k

abbrev pub later : List ℕ → List ℕ
later [] = []
later (k ∷ room) = room

-- `clearerr(f); fwrite(buffer, 1, n, f)`: the number of bytes taken, and the stream after it.
unfoldable pub fwrite : Bytes → Output → ℕ × Output
fwrite bytes f =
    let k = min (length bytes) (now f.room) in
    (k, record { written = f.written ++ take k bytes; room = later f.room; failed = false })
