-- ===== src/Space/Step.antt =====
-- `space_step`: an idle processor is left alone, and else the channels and the copies are served.
use copy_space.Base.{
  ℕ, ◌<◌, ◌≡◌, ◌≢◌, refl, ap, ◌∙◌, arith, [], get_elem?, get_or, get_elem?-eq-get_or,
}
use copy_space.Base.{
  some, ◌>>=◌, true, false, Bool, Bool-cases, inl, inr, ◌==◌, ◌++◌, if◌then◌else◌,
}
use mathlib.Core.Path.{subst}
use copy_space.BitCopy.Spec.{Returns, Returns-bind}
use copy_space.Config.{Config, IsConfig}
use copy_space.Space.{
  Machine, Instruction, Port, reading, writing, Transfers, Stepped, Round, channel, channels,
  space_step, serve, step_if, bad_channel, idle, done, error,
}
use copy_space.Space.Valid.{IsMachine, fetched, fetch_instruction-eq, fetched-IsMachine}
use copy_space.Space.Model
use copy_space.Space.Model.{bits_of, view}
use copy_space.Space.Compute.{computation-Refines}
use copy_space.Space.Channel.{channel_bad, channel_out, channel_in}
use copy_space.Space.Active.{space_active-Active}

module _ (c : Config) (v : IsConfig c) where
  channel_of_row :
      (port : Port) (slot : ℕ) (r : Instruction) (m : Machine)
      → slot < c.processor_n
      → IsMachine c m
      → get_elem? m.processor slot ≡ some r
      → r.n ≢ 0
      → Returns (channel c port slot m) (λ t. IsMachine c t.machine)
  channel_of_row port slot r m h w row on = elim (Bool-cases (bad_channel c r)) [
    | inl bad ↦ let (t, e, s) = channel_bad c v port slot r m h w row on bad in (t, e, s.sizes)
    | inr good ↦ by_port port good
  ]
    where
      by_port :
          (port : Port)
          → bad_channel c r ≡ false
          → Returns (channel c port slot m) (λ t. IsMachine c t.machine)
      by_port (writing f) good =
          let (t, e, s) = channel_out c v f slot r m h w row on good in (t, e, s.sizes)
      by_port (reading f) good =
          let x = channel_in c v f slot r m h w row on good in (x.2.0, x.2.1, x.2.2.sizes)

  off_channel :
      (port : Port) (slot : ℕ) (r : Instruction) (m : Machine)
      → get_elem? m.processor slot ≡ some r
      → r.n ≡ 0
      → channel c port slot m ≡ some (record { port = port; machine = m; events = [] })
  unfolding channel
  off_channel port slot r m row off = let z : (r.n == 0) ≡ true = ground arith in rw (row, z)

  pub channel-IsMachine :
      (port : Port) (slot : ℕ) (m : Machine)
      → slot < c.processor_n
      → IsMachine c m
      → Returns (channel c port slot m) (λ t. IsMachine c t.machine)
  channel-IsMachine port slot m h w =
      let none_row : Instruction = record { n = 0; dst = 0; src = 0 } in
      let r = get_or m.processor slot none_row in
      let row = get_elem?-eq-get_or m.processor slot none_row (omega (arith, w.processor_length)) in
      elim (Bool-cases (r.n == 0)) [
        | inl off ↦ (
          record { port = port; machine = m; events = [] },
          off_channel port slot r m row (ground arith),
          w,
        )
        | inr on ↦ channel_of_row port slot r m h w row (ground arith)
      ]

  channels-IsMachine :
      (input output : Port) (m : Machine)
      → IsMachine c m
      → Returns (channels c input output m) (λ t. IsMachine c t.machine)
  unfolding channels
  channels-IsMachine input output m w =
      let m2 = fetched c 2 m in
      let m1 = fetched c 1 m2 in
      let w2 = fetched-IsMachine c v 2 m w in
      let w1 = fetched-IsMachine c v 1 m2 w2 in
      let two : 2 < c.processor_n = omega (arith, v.enough_slots) in
      let one : 1 < c.processor_n = omega (arith, v.enough_slots) in
      rw (fetch_instruction-eq c v 2 m two w, fetch_instruction-eq c v 1 m2 one w2)
        (Returns-bind (λ t. IsMachine c t.machine) (λ t. IsMachine c t.machine)
          (channel-IsMachine output 2 m1 two w1)
          λ out p.
            Returns-bind (λ t. IsMachine c t.machine) (λ t. IsMachine c t.machine)
              (channel-IsMachine input 1 out.machine one p)
              λ t q. (
                record {
                  input = t.port;
                  output = out.port;
                  machine = t.machine;
                  events = out.events ++ t.events;
                },
                refl,
                q,
              ))

  -- What a step of either kind leaves.
  pub record Steps (active : Bool) (input output : Port) (m : Machine) (s : Stepped) : Type 0 where
    pub sizes : IsMachine c s.machine
    pub resting :
        active ≡ false
        → (s.result ≡ idle)
          × (s.machine.space ≡ m.space)
          × (s.input ≡ input)
          × (s.output ≡ output)
          × (s.events ≡ [])
    pub working : active ≡ true → s.result ≢ idle

  served :
      (input output : Port) (m m' : Machine)
      → IsMachine c m'
      → Returns (serve c input output m') (Steps true input output m)
  unfolding serve
  served input output m m' w =
      Returns-bind (λ t. IsMachine c t.machine) (Steps true input output m)
        (channels-IsMachine input output m' w)
        λ t p.
          let (r, e, q) = computation-Refines c v t.machine p in
          (
            finished t r,
            ap (λ x. x >>= λ y. some (finished t y)) e,
            record { sizes = q.0; resting = λ h. absurd (cc); working = λ h. not_idle r.failed },
          )
    where
      finished : Transfers → Round → Stepped
      finished t r = record {
        input = t.input;
        output = t.output;
        machine = r.machine;
        events = t.events ++ r.events;
        result = if r.failed then error else done;
      }

      not_idle : (b : Bool) → (if b then error else done) ≢ idle
      not_idle true = λ h. cc
      not_idle false = λ h. cc

  step_if-Steps :
      (active : Bool) (input output : Port) (m m' : Machine)
      → IsMachine c m'
      → m'.space ≡ m.space
      → Returns (step_if c active input output m') (Steps active input output m)
  unfolding step_if
  step_if-Steps false input output m m' w e = (
    record { input = input; output = output; machine = m'; events = []; result = idle },
    refl,
    record { sizes = w; resting = λ h. (refl, e, refl, refl, refl); working = λ h. absurd (cc) },
  )
  step_if-Steps true input output m m' w e = served input output m m' w

  -- On every machine of a valid configuration a step returns, whatever the streams do, with no
  -- access out of range, and keeps the sizes. It answers idle exactly when no instruction of space
  -- is active, and then space, the streams and the observer are left alone.
  pub space_step-Steps :
      (input output : Port) (m : Machine)
      → IsMachine c m
      → Returns
          (space_step c input output m)
          (Steps (Model.active c (bits_of m.space)) input output m)
  unfolding space_step
  space_step-Steps input output m w =
      let (r, e, p) = space_active-Active c v m w in
      let (s, d, q) = step_if-Steps r.1 input output m r.0 p.0 p.1 in
      (
        s,
        ap (λ t. t >>= λ x. step_if c x.1 input output x.0) e ∙ d,
        subst (λ t. Steps t input output m s) p.2 q,
      )
