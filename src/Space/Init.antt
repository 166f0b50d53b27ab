-- ===== src/Space/Init.antt =====
-- `space_init` loads an image.
use copy_space.Base.{ℕ, ◌<◌, ◌≤◌, ◌≡◌, ◌≢◌, ◌⊎◌, Option, none, some, length}
use copy_space.Memory.{Bytes, byte_at}
use copy_space.Config.{Config}
use copy_space.Space.{Machine, pointed_to}

-- What `space_init` leaves: the image, then zeros up to the end of space, and `processor` as it was.
pub record Loaded (c : Config) (image : Bytes) (bytes : ℕ) (m m' : Machine) : Type 0 where
  pub space_length : length m'.space ≡ c.vm_space_bytes
  pub image_bytes : (k : ℕ) → k < bytes → byte_at m'.space k ≡ byte_at image k
  pub zero_bytes : (k : ℕ) → bytes ≤ k → byte_at m'.space k ≡ 0
  pub same_processor : m'.processor ≡ m.processor

-- What `space_init` refuses: more bytes than space has, or bytes of a null pointer.
abbrev pub Refused : Config → Option Bytes → ℕ → Type 0
Refused c image bytes = (c.vm_space_bytes < bytes) ⊎ ((bytes ≢ 0) × (image ≡ none))

-- The two results of `space_init`.
pub data Initialised (c : Config) (image : Option Bytes) (bytes : ℕ) (m : Machine)
    : Option Machine → Type 0 where
  refused : Refused c image bytes → Initialised c image bytes m none
  loaded :
      {m' : Machine}
      → ¬ Refused c image bytes
      → Loaded c (pointed_to image) bytes m m'
      → Initialised c image bytes m (some m')
