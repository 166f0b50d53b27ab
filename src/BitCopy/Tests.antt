-- ===== src/BitCopy/Tests.antt =====
-- Runs of `bitcpy` on small buffers, and its theorem at a concrete input.
use copy_space.Base.{◌≡◌, refl, [], ◌∷◌, some, none, arith}
use copy_space.Memory.{Bytes, load, store, memmove, load_bytes}
use copy_space.BitCopy.{
  same, apart, bitcpy, copy_fast, copy_aligned, copy_shifted, copy_shifted_body,
}
use copy_space.BitCopy.{
  move_whole, move_window, window_byte, overlap_fallback, move_up, move_down, move_bit, bit_get_ptr,
  bit_set_ptr, in_place, overlaps,
}
use copy_space.BitCopy.Spec.{Returns, Copied, Fits}
use copy_space.BitCopy.Paths.{bitcpy-Copied}

abbrev buffer : Bytes
buffer = 0xa5 ∷ 0x3c ∷ 0x96 ∷ 0x0f ∷ 0x81 ∷ []

buffer-Fits : Fits same 13 1 10 buffer
buffer-Fits = omega arith

bitcpy-Copied_example : Returns (bitcpy same 13 1 10 buffer) (Copied same 13 1 10 buffer)
bitcpy-Copied_example = bitcpy-Copied same 13 1 10 buffer buffer-Fits

-- An overlapping copy upwards by 3 bits.
overlapping_run : bitcpy same 12 0 3 buffer ≡ some (0xb4 ∷ 0xa6 ∷ 0x96 ∷ 0x0f ∷ 0x81 ∷ [])
unfolding bitcpy copy_fast overlap_fallback move_up move_down move_bit bit_get_ptr bit_set_ptr
    in_place overlaps load store
overlapping_run = refl

-- A copy between buffers with different bit offsets.
shifted_run :
    bitcpy (apart (0xff ∷ 0x00 ∷ 0xff ∷ [])) 16 4 2 buffer
    ≡ some (0xbc ∷ 0x03 ∷ 0xd6 ∷ 0x0f ∷ 0x81 ∷ [])
unfolding bitcpy copy_fast overlap_fallback move_up move_down move_bit bit_get_ptr bit_set_ptr
    in_place overlaps copy_shifted copy_shifted_body move_window window_byte load store
shifted_run = refl

-- A read past the end of the source is a fault.
out_of_range : bitcpy (apart (0xff ∷ [])) 16 0 0 buffer ≡ none
unfolding bitcpy in_place overlaps copy_fast copy_aligned move_whole memmove load_bytes load
out_of_range = refl
