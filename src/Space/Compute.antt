-- ===== src/Space/Compute.antt =====
-- `computation` refines the abstract copy machine.
use copy_space.Base.{
  ℕ, zero, suc, ◌+◌, ◌-◌, ◌*◌, ◌<◌, ◌≤◌, ◌≡◌, refl, ap, ◌∙◌, arith, length, List, [], ◌∷◌, ◌++◌,
}
use copy_space.Base.{
  some, Option, ◌>>=◌, true, false, Bool, Bool-cases, inl, inr, ◌⊎◌, ltb, leb, ◌==◌, ◌&&◌, ◌||◌,
  if◌then◌else◌, ltb→lt, ltb→le, get_elem?-set_self,
}
use mathlib.Core.Path.{fun_ext, subst}
use copy_space.Memory.{Bytes}
use copy_space.Memory.Bits.{bit_at, bit_same}
use copy_space.BitCopy.{same}
use copy_space.BitCopy.Spec.{Returns, Returns-bind, Copied, Fits}
use copy_space.BitCopy.Paths.{bitcpy-Copied}
use copy_space.Config.{Config, IsConfig, space_size}
use copy_space.Field.{read_field}
use copy_space.Space.{
  Machine, Instruction, Event, Round, out_of_space, slot_start, execute_slot, resume, visit,
  perform, compute_from, computation, copy_event, after,
}
use copy_space.Space.Valid.{
  IsMachine, decode, fetched, fetch_instruction-eq, fetched-IsMachine, space_size-eq,
}
use copy_space.Space.Model
use copy_space.Space.Model.{BitSpace, BitRound, number, moved, bits_of, view}

pub number-read_field : (m : Bytes) (p n : ℕ) → read_field m p n ≡ number (bits_of m) p n
unfolding read_field number
number-read_field m p zero = refl
number-read_field m p (suc n) = ap (λ t. bit_at m p + 2 * t) (number-read_field m (p + 1) n)

pub instruction-decode :
    (c : Config) (m : Bytes) (i : ℕ) → decode c m i ≡ Model.instruction c (bits_of m) i
unfolding Model.instruction slot_start
instruction-decode c m i = simp number-read_field

-- A bit copy, seen as a function on bit positions.
moved-Copied :
    (n s d : ℕ) (m m' : Bytes) → Copied same n s d m m' → bits_of m' ≡ moved n s d (bits_of m)
moved-Copied n s d m m' w = fun_ext λ p. at p (Bool-cases (leb d p)) (Bool-cases (ltb p (d + n)))
  where
    at :
        (p : ℕ)
        → (leb d p ≡ true) ⊎ (leb d p ≡ false)
        → (ltb p (d + n) ≡ true) ⊎ (ltb p (d + n) ≡ false)
        → bit_at m' p ≡ (if leb d p && ltb p (d + n) then bit_at m (s + (p - d)) else bit_at m p)
    at p (inl a) (inl b) =
        let a' : d ≤ p = ground arith in
        let b' = ltb→lt p (d + n) b in
        rw (a, b)
          (bit_same m' {p = p} {q = d + (p - d)} (omega arith) ∙ w.inside (p - d) (omega arith))
    at p (inr a) _ = let a' : p < d = ground arith in rw a (w.outside_low p a')
    at p (inl a) (inr b) = rw (a, b) (w.outside_high p (ltb→le p (d + n) b))

module _ (c : Config) (v : IsConfig c) where
  -- An instruction that passes the test of `computation` copies between ranges inside space.
  in_space-Fits :
      (r : Instruction) (m : Machine)
      → IsMachine c m
      → out_of_space c r ≡ false
      → Fits same r.n r.src r.dst m.space
  unfolding out_of_space
  in_space-Fits r m w h =
      let total = space_size-eq c v in
      let parts : (r.dst < space_size c)
          × (r.src < space_size c)
          × (r.dst + r.n ≤ space_size c)
          × (r.src + r.n ≤ space_size c) =
        ground arith in
      record {
        reads = omega (arith, w.space_length, parts);
        writes = omega (arith, w.space_length, parts);
        small_source = omega (arith, w.space_length, v.is_int);
        small = omega (arith, w.space_length, v.is_int);
      }

  -- The test of `computation`, in terms of ranges.
  bad_range :
      (r : Instruction)
      → out_of_space c r ≡ true
      → (Model.inside c r.dst r.n && Model.inside c r.src r.n) ≡ false
  unfolding out_of_space
  bad_range r h = ground arith

  good_range :
      (r : Instruction)
      → out_of_space c r ≡ false
      → (Model.inside c r.dst r.n && Model.inside c r.src r.n) ≡ true
  unfolding out_of_space
  good_range r h = ground arith

  abbrev copied_round : ℕ → Instruction → Machine → Bytes → Option Round
  copied_round i r m space' = some (record {
    machine = record m { space = space' };
    events = copy_event i r ∷ [];
    failed = false;
  })

  abbrev prefixed : List Event → BitRound → BitRound
  prefixed events t = record t { events = events ++ t.events }

  abbrev after_round : List Event → Round → Option Round
  after_round events s = some (after events s)

  -- What a round of the emulator has to be, against the abstract machine.
  abbrev Refines : BitRound → Round → Type 0
  Refines s r = IsMachine c r.machine × (view r ≡ s)

  perform-Refines :
      (i : ℕ) (r : Instruction) (m : Machine)
      → IsMachine c m
      → Returns (perform c i r m) (Refines (Model.perform c i r (bits_of m.space)))
  unfolding perform Model.perform
  perform-Refines i r m w = elim (Bool-cases (r.n == 0)) [
    | inl off ↦ rw off (record { machine = m; events = []; failed = false }, refl, (w, refl))
    | inr on ↦ elim (Bool-cases (out_of_space c r)) [
      | inl bad ↦
          rw (on, bad, bad_range r bad)
            (record { machine = m; events = copy_event i r ∷ []; failed = true }, refl, (w, refl))
      | inr good ↦
          let (space', e, k) =
            bitcpy-Copied same r.n r.src r.dst m.space (in_space-Fits r m w good) in
          rw (on, good, good_range r good)
            (
              record {
                machine = record m { space = space' };
                events = copy_event i r ∷ [];
                failed = false;
              },
              ap (λ t. t >>= copied_round i r m) e,
              (
                record {
                  space_length = k.same_length ∙ w.space_length;
                  processor_length = w.processor_length;
                },
                ap (λ t. record { bits = t; events = copy_event i r ∷ []; failed = false })
                    (moved-Copied r.n r.src r.dst m.space space' k),
              ),
            )
    ]
  ]

  execute_slot-Refines :
      (i : ℕ) (m : Machine)
      → i < c.processor_n
      → IsMachine c m
      → Returns (execute_slot c i m) (Refines (Model.execute c i (bits_of m.space)))
  unfolding execute_slot Model.execute
  execute_slot-Refines i m h w =
      let r = decode c m.space i in
      let m' = fetched c i m in
      let in_range : i < length m.processor = omega (arith, w.processor_length) in
      rw
        (
          fetch_instruction-eq c v i m h w,
          get_elem?-set_self m.processor i r in_range,
          ← instruction-decode c m.space i,
        )
        (perform-Refines i r m' (fetched-IsMachine c v i m w))

  resume-Refines :
      (failed : Bool) (next : Machine → Option Round) (next' : BitSpace → BitRound) (r : Round)
      → IsMachine c r.machine
      → ((m : Machine) → IsMachine c m → Returns (next m) (Refines (next' (bits_of m.space))))
      → Returns (resume failed next r) (Refines (Model.resume failed next' (view r)))
  unfolding resume Model.resume
  resume-Refines true next next' r w k = (r, refl, (w, refl))
  resume-Refines false next next' r w k =
      let (s, e, p) = k r.machine w in
      (after r.events s, ap (λ t. t >>= after_round r.events) e, (p.0, ap (prefixed r.events) p.1))

  resume_view :
      (next : Machine → Option Round) (next' : BitSpace → BitRound) (r : Round) (s : BitRound)
      → Refines s r
      → ((m : Machine) → IsMachine c m → Returns (next m) (Refines (next' (bits_of m.space))))
      → Returns (resume r.failed next r) (Refines (Model.resume s.failed next' s))
  resume_view next next' r s p k =
      subst (λ t. Returns (resume r.failed next r) (Refines (Model.resume t.failed next' t))) p.1
        (resume-Refines r.failed next next' r p.0 k)

  visit-Refines :
      (channel : Bool) (next : Machine → Option Round) (next' : BitSpace → BitRound) (i : ℕ)
      (m : Machine)
      → i < c.processor_n
      → IsMachine c m
      → ((m : Machine) → IsMachine c m → Returns (next m) (Refines (next' (bits_of m.space))))
      → Returns
          (visit c channel next i m)
          (Refines (Model.visit c channel next' i (bits_of m.space)))
  unfolding visit Model.visit
  visit-Refines true next next' i m h w k = k m w
  visit-Refines false next next' i m h w k =
      let s = Model.execute c i (bits_of m.space) in
      Returns-bind (Refines s) (Refines (Model.resume s.failed next' s))
        (execute_slot-Refines i m h w) λ r p. resume_view next next' r s p k

  run-Refines :
      (left i : ℕ) (m : Machine)
      → i + left ≤ c.processor_n
      → IsMachine c m
      → Returns (compute_from c left i m) (Refines (Model.run c left i (bits_of m.space)))
  unfolding compute_from Model.run
  run-Refines zero i m h w = (record { machine = m; events = []; failed = false }, refl, (w, refl))
  run-Refines (suc left) i m h w =
      visit-Refines (i == 1 || i == 2) (compute_from c left (i + 1)) (Model.run c left (i + 1)) i m
        (omega arith) w λ m' w'. run-Refines left (i + 1) m' (omega arith) w'

  -- On every machine of a valid configuration `computation` returns, with no access out of range,
  -- and keeps the sizes. What it does to the bits of space, the events that it reports and whether
  -- it gives up are what the abstract machine does, which moves whole ranges of bits at once.
  pub computation-Refines :
      (m : Machine)
      → IsMachine c m
      → Returns
          (computation c m)
          (λ r. IsMachine c r.machine × (view r ≡ Model.run c c.processor_n 0 (bits_of m.space)))
  unfolding computation
  computation-Refines m w = run-Refines c.processor_n 0 m (omega arith) w
