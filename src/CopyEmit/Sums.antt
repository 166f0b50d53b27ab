-- ===== src/CopyEmit/Sums.antt =====
-- Copy code for an addition or a subtraction, run on the abstract machine.
use copy_space.Base.{
  ℕ, ◌+◌, ◌-◌, ◌%◌, ◌^◌, ◌<◌, ◌≡◌, refl, sym, ap, ◌∙◌, arith, Bool, true, false, some, none,
}
use mathlib.Core.Path.{subst}
use copy_space.Memory.Bits.{bit_at}
use copy_space.Config.{Config}
use copy_space.Space.Model
use copy_space.Space.Model.{BitSpace, BitRound, number}
use copy_space.CopyEmit.{CopyImage}
use copy_space.CopyEmit.Code.{Operands, add_valid, arithmetic32, cs_copy_add32, cs_copy_sub32}
use copy_space.CopyEmit.Rows.{IsImage}
use copy_space.CopyEmit.Machine.{Bits}
use copy_space.CopyEmit.Layout.{AddSafe}
use copy_space.CopyEmit.Execution.{Computed, code_computes}
use copy_space.CopyEmit.Adds.{
  CodeWritten, ArithmeticAnswer, code_refused, code_written, arithmetic32-Answered,
}
use copy_space.CopyEmit.Loaded.{Loaded, SameSpace}

written_of :
    (s : Bool) (image : CopyImage) (x : Operands) (image' : CopyImage)
    → ArithmeticAnswer s image x (true, image')
    → AddSafe image x × CodeWritten s image x image'
written_of s image x image' (code_written good safe done) = (safe, done)

pub accepted_image :
    (s : Bool) (image : CopyImage) (x : Operands)
    → IsImage image
    → add_valid image x ≡ true
    → (image' : CopyImage) × (arithmetic32 image s x ≡ some (true, image'))
accepted_image s image x v good =
    let (r, e, p) = arithmetic32-Answered s image x v in
    let (image', same) = written r p in (image', e ∙ ap some same)
  where
    written :
        (r : Bool × CopyImage)
        → ArithmeticAnswer s image x r
        → (image' : CopyImage) × (r ≡ (true, image'))
    written (_, image') (code_refused bad) = absurd (ground (arith, good, bad))
    written (_, image') (code_written good' safe done) = (image', refl)

-- What an accepted call leaves in the image.
written_by :
    (s : Bool) (image : CopyImage) (x : Operands) (image' : CopyImage)
    → IsImage image
    → arithmetic32 image s x ≡ some (true, image')
    → AddSafe image x × CodeWritten s image x image'
written_by s image x image' v e =
    let (r, d, p) = arithmetic32-Answered s image x v in
    let same : r ≡ (true, image') = ap (λ t. elim t [ none ↦ r | some y ↦ y ]) (sym d ∙ e) in
    written_of s image x image' (subst (ArithmeticAnswer s image x) same p)

-- Whatever `cs_copy_add32` accepts computes a sum. When the template layer of the image it leaves
-- has been copied to the start of space, and the table is in place, the machine runs the 193 slots
-- from the image's slot counter on without giving up; the destination then holds the sum of the two
-- operands modulo 2 ^ 32, whatever they, the temporary and the carry held before; and behind the
-- code only the destination, the temporary and the carry change.
pub cs_copy_add32-Computed :
    (c : Config) (image : CopyImage) (x : Operands) (image' : CopyImage) (b : BitSpace)
    → IsImage image
    → cs_copy_add32 image x ≡ some (true, image')
    → SameSpace c image
    → Bits b
    → Loaded image'.buffer image.layer image.layer_bits b
    → ((i : ℕ) → i < 16 → b (x.table + i) ≡ bit_at image'.buffer (x.table + i))
    → Computed image x
        ((number b x.left 32 + number b x.right 32) % 2 ^ 32)
        b
        (Model.run c 193 image.slot b)
unfolding cs_copy_add32
cs_copy_add32-Computed c image x image' b v e g w l t =
    let (safe, done) = written_by false image x image' v e in
    code_computes c false image x image' b v safe done g w l t

-- The same for `cs_copy_sub32`: the destination then holds the difference of the two operands
-- modulo 2 ^ 32.
pub cs_copy_sub32-Computed :
    (c : Config) (image : CopyImage) (x : Operands) (image' : CopyImage) (b : BitSpace)
    → IsImage image
    → cs_copy_sub32 image x ≡ some (true, image')
    → SameSpace c image
    → Bits b
    → Loaded image'.buffer image.layer image.layer_bits b
    → ((i : ℕ) → i < 16 → b (x.table + i) ≡ bit_at image'.buffer (x.table + i))
    → Computed image x
        ((number b x.left 32 + (2 ^ 32 - number b x.right 32)) % 2 ^ 32)
        b
        (Model.run c 193 image.slot b)
unfolding cs_copy_sub32
cs_copy_sub32-Computed c image x image' b v e g w l t =
    let (safe, done) = written_by true image x image' v e in
    code_computes c true image x image' b v safe done g w l t
