-- ===== src/CopyEmit/Emission.antt =====
-- Sequences of rows that `cs_copy_emit` writes one after the other.
use copy_space.Base.{
  ℕ, suc, ◌+◌, ◌-◌, ◌*◌, ◌<◌, ◌≤◌, ◌≡◌, refl, sym, ap, ◌∙◌, arith, Bool, false, leb, some, Option,
  ◌>>=◌, List, [], ◌∷◌, ◌++◌, length,
}
use mathlib.Core.Path.{subst}
use copy_space.Memory.{Bytes}
use copy_space.Memory.Bits.{bit_at}
use copy_space.BitCopy.Spec.{Returns, Returns-bind}
use copy_space.Space.{Instruction}
use copy_space.Core.Rows.{Kept}
use copy_space.CopyEmit.{CopyImage, count_slot, cs_copy_emit}
use copy_space.CopyEmit.Code.{emitted}
use copy_space.CopyEmit.Rows.{
  IsImage, RowFits, RowAt, RowAt-kept, RowAnswer, row_refused, row_written, at_slot,
  cs_copy_row-RowAnswer,
}

-- Rows that lie one after the other from `at` on.
abbrev pub Spelled : ℕ → Bytes → ℕ → List Instruction → Type 0
Spelled a m at [] = Unit {0}
Spelled a m at (r ∷ rs) = RowAt a m at r × Spelled a m (at + (3 * a - 1)) rs

pub all_bits : (k l : ℕ) → (suc k) * l ≡ k * l + l
all_bits k l = grind arith

pub sum_bits : (j k l : ℕ) → (j + k) * l ≡ j * l + k * l
sum_bits j k l = grind arith

pub Spelled-kept :
    (a : ℕ) (m m' : Bytes) (at : ℕ) (rs : List Instruction)
    → 1 ≤ a
    → ((q : ℕ) → at ≤ q → q < at + length rs * (3 * a - 1) → bit_at m' q ≡ bit_at m q)
    → Spelled a m at rs
    → Spelled a m' at rs
Spelled-kept a m m' at [] h same w = tt
Spelled-kept a m m' at (r ∷ rs) h same (w, ws) =
    let total = all_bits (length rs) (3 * a - 1) in
    (
      RowAt-kept a m m' at r h (λ q p k. same q p (omega (arith, total))) w,
      Spelled-kept a m m' (at + (3 * a - 1)) rs h
          (λ q p k. same q (omega arith) (omega (arith, total))) ws,
    )

pub Spelled-append :
    (a : ℕ) (m : Bytes) (at : ℕ) (xs ys : List Instruction)
    → Spelled a m at xs
    → Spelled a m (at + length xs * (3 * a - 1)) ys
    → Spelled a m at (xs ++ ys)
Spelled-append a m at [] ys w v =
    subst (λ t. Spelled a m t ys) {x = at + 0 * (3 * a - 1)} {y = at} (omega arith) v
Spelled-append a m at (x ∷ xs) ys (w, ws) v = (
  w,
  Spelled-append a m (at + (3 * a - 1)) xs ys ws (
      subst (λ t. Spelled a m t ys) {x = at + suc (length xs) * (3 * a - 1)}
        {y = at + (3 * a - 1) + length xs * (3 * a - 1)}
        (omega (arith, all_bits (length xs) (3 * a - 1))) v),
)

-- The image after rows were written: another buffer, and the slots counted on.
abbrev pub advance : CopyImage → Bytes → ℕ → CopyImage
advance image m k = record image { buffer = m; slot = image.slot + k }

-- Where the next row goes.
abbrev pub here : CopyImage → ℕ
here image = at_slot image image.slot

pub record Emits (rows : List Instruction) (image image' : CopyImage) : Type 0 where
  pub shape : image' ≡ advance image image'.buffer (length rows)
  pub spelled : Spelled image.address_bits image'.buffer (here image) rows
  pub kept :
      Kept (here image) (length rows * (3 * image.address_bits - 1)) image.buffer image'.buffer

pub Emits-IsImage :
    (rows : List Instruction) (image image' : CopyImage)
    → Emits rows image image'
    → IsImage image
    → image.slot + length rows ≤ 255
    → IsImage image'
Emits-IsImage rows image image' e v h = subst IsImage (sym e.shape) (record {
  same_bytes = e.kept.same_length ∙ v.same_bytes;
  address_low = v.address_low;
  address_high = v.address_high;
  space_is = v.space_is;
  count_is = v.count_is;
  instruction_is = v.instruction_is;
  layer_is = v.layer_is;
  layer_aligned = v.layer_aligned;
  layer_fits = v.layer_fits;
  bytes_fit = v.bytes_fit;
  slot_low = omega (arith, v.slot_low);
  slot_high = h;
})

pub Emits-RowFits :
    (rows : List Instruction) (image image' : CopyImage) (r : Instruction)
    → Emits rows image image'
    → RowFits image r
    → RowFits image' r
Emits-RowFits rows image image' r e w =
    subst (λ t. RowFits t r) (sym e.shape)
      (record {
        count_small = w.count_small;
        destination_inside = w.destination_inside;
        source_inside = w.source_inside;
        destination_small = w.destination_small;
        source_small = w.source_small;
      })

Emits-here :
    (rows : List Instruction) (image image' : CopyImage)
    → Emits rows image image'
    → IsImage image
    → here image' ≡ here image + length rows * (3 * image.address_bits - 1)
Emits-here rows image image' e v =
    ap here e.shape
    ∙ omega (
      arith,
      sum_bits image.slot (length rows) image.instruction_bits,
      ap (λ t. length rows * t) v.instruction_is,
    )

length-append : (xs ys : List Instruction) → length (xs ++ ys) ≡ length xs + length ys
length-append [] ys = omega arith
length-append (x ∷ xs) ys = omega (arith, length-append xs ys)

pub Emits-append :
    (xs ys : List Instruction) (i j k : CopyImage)
    → IsImage i
    → Emits xs i j
    → Emits ys j k
    → Emits (xs ++ ys) i k
Emits-append xs ys i j k v p q =
    let a = i.address_bits in
    let l = 3 * a - 1 in
    let low : 1 ≤ a = omega (arith, v.address_low) in
    let next = Emits-here xs i j p v in
    let same_a : j.address_bits ≡ a = ap (λ t. t.address_bits) p.shape in
    let total = sum_bits (length xs) (length ys) l in
    let both = length-append xs ys in
    let spelled : Spelled a k.buffer (here i + length xs * l) ys =
      subst (λ t. Spelled a k.buffer t ys) next
        (subst (λ t. Spelled t k.buffer (here j) ys) same_a q.spelled) in
    let kept : Kept (here i + length xs * l) (length ys * l) j.buffer k.buffer =
      subst (λ t. Kept t (length ys * l) j.buffer k.buffer) next
        (subst (λ t. Kept (here j) (length ys * (3 * t - 1)) j.buffer k.buffer) same_a q.kept) in
    record {
      shape =
          q.shape
          ∙ ap (λ t. advance t k.buffer (length ys)) p.shape
          ∙ ap (λ t. record i { buffer = k.buffer; slot = t }) {x = i.slot + length xs + length ys}
              {y = i.slot + length (xs ++ ys)} (omega arith);
      spelled =
          Spelled-append a k.buffer (here i) xs ys
            (Spelled-kept a j.buffer k.buffer (here i) xs low (λ r z b. kept.below r b) p.spelled)
            spelled;
      kept =
          subst (λ t. Kept (here i) t i.buffer k.buffer) {x = length xs * l + length ys * l}
            {y = length (xs ++ ys) * l} (sym total ∙ ap (λ t. t * l) (sym both))
            (record {
              same_length = kept.same_length ∙ p.kept.same_length;
              below = λ r b. kept.below r (omega arith) ∙ p.kept.below r b;
              above = λ r b. kept.above r (omega arith) ∙ p.kept.above r (omega arith);
            });
    }

one_row :
    (image : CopyImage) (r : Instruction) (x : Bool × CopyImage)
    → IsImage image
    → RowFits image r
    → image.slot < 256
    → RowAnswer image image.slot r x
    → Returns (count_slot x >>= λ y. some y.1) (Emits (r ∷ []) image)
one_row image r x v w h (row_refused none_fits) = absurd (none_fits (h, w))
one_row image r x v w h (row_written {m} h' w' p) = (
  advance image m 1,
  refl,
  record {
    shape = refl;
    spelled = (p.0, tt);
    kept =
        subst (λ t. Kept (here image) t image.buffer m) {x = 3 * image.address_bits - 1}
          {y = 1 * (3 * image.address_bits - 1)} (omega arith) p.1;
  },
)

-- A row that fits is written by `cs_copy_emit`.
pub emitted-Emits :
    (image : CopyImage) (r : Instruction)
    → IsImage image
    → RowFits image r
    → image.slot < 255
    → Returns (emitted image r.n r.dst r.src) (Emits (r ∷ []) image)
unfolding emitted cs_copy_emit
emitted-Emits image r v w h =
    let free : leb 255 image.slot ≡ false = ground arith in
    let (x, e, p) = cs_copy_row-RowAnswer image image.slot r v in
    let (image', d, q) = one_row image r x v w (omega arith) p in rw (free, e) (image', d, q)

-- Rows emitted one after the other, answers not looked at.
unfoldable pub emit_all : List Instruction → CopyImage → Option CopyImage
emit_all [] image = some image
emit_all (r ∷ []) image = emitted image r.n r.dst r.src
emit_all (r ∷ r' ∷ rs) image = emitted image r.n r.dst r.src >>= emit_all (r' ∷ rs)

abbrev pub AllFit : CopyImage → List Instruction → Type 0
AllFit image [] = Unit {0}
AllFit image (r ∷ rs) = RowFits image r × AllFit image rs

pub Emits-AllFit :
    (rows rs : List Instruction) (image image' : CopyImage)
    → Emits rows image image'
    → AllFit image rs
    → AllFit image' rs
Emits-AllFit rows [] image image' e w = tt
Emits-AllFit rows (r ∷ rs) image image' e (w, ws) =
    (Emits-RowFits rows image image' r e w, Emits-AllFit rows rs image image' e ws)

pub emit_all-Emits :
    (rs : List Instruction) (image : CopyImage)
    → IsImage image
    → AllFit image rs
    → image.slot + length rs ≤ 255
    → Returns (emit_all rs image) (Emits rs image)
unfolding emit_all
emit_all-Emits [] image v w h = (
  image,
  refl,
  record {
    shape = ap (λ t. record image { slot = t }) {x = image.slot} {y = image.slot + 0} (omega arith);
    spelled = tt;
    kept = record { same_length = refl; below = λ q b. refl; above = λ q b. refl };
  },
)
emit_all-Emits (r ∷ []) image v w h = emitted-Emits image r v w.0 (omega arith)
emit_all-Emits (r ∷ r' ∷ rs) image v w h =
    Returns-bind (Emits (r ∷ []) image) (Emits (r ∷ r' ∷ rs) image)
      (emitted-Emits image r v w.0 (omega arith))
      λ image' e.
        let next : image'.slot ≡ image.slot + 1 = ap (λ t. t.slot) e.shape in
        let (image'', d, q) =
          emit_all-Emits (r' ∷ rs) image' (Emits-IsImage (r ∷ []) image image' e v (omega arith))
            (Emits-AllFit (r ∷ []) (r' ∷ rs) image image' e w.1) (omega (arith, next)) in
        (image'', d, Emits-append (r ∷ []) (r' ∷ rs) image image' image'' v e q)
