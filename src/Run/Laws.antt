-- ===== src/Run/Laws.antt =====
-- A run never faults; with a tick limit it ends, at the limit or before.
use copy_space.Base.{
  ℕ, zero, suc, ◌+◌, ◌^◌, ◌<◌, ◌≤◌, ◌≡◌, refl, sym, ap, ◌∙◌, arith, some, Bool, true, false, ◌==◌,
  if◌then◌else◌, Bool-cases, inl, inr, [], ◌∷◌, ◌++◌, List,
}
use mathlib.Core.Path.{subst}
use mathlib.Core.List.{map}
use copy_space.Config.{Config, IsConfig}
use copy_space.Space.{Machine, Port, Event, Stepped, StepResult, done, idle, error, space_step}
use copy_space.Space.Valid.{IsMachine, space_read_processor-IsMachine}
use copy_space.Space.Model
use copy_space.Space.Model.{bits_of}
use copy_space.Space.Active.{space_active-Active}
use copy_space.Space.Step.{Steps, space_step-Steps}
use copy_space.Run.{
  Stop, stop_idle, stop_limit, stop_error, Final, Outcome, stopped, Session, tick, session_after,
  or_fault, final_of, at_tick,
}
use copy_space.Run.{
  at_limit, finish, limit_reached, follow, step_session, one_tick, loop, space_run,
}
use copy_space.Run.Ends.{is_active, Leaves, Ran, limit_stop, idle_stop, error_stop, done_step, Ends}

Ends-of_eq :
    (c : Config) (limit : ℕ) (s : Session) (out out' : Outcome)
    → out ≡ out'
    → Ends c limit s out'
    → Ends c limit s out
Ends-of_eq c limit s out out' e k = subst (λ t. Ends c limit s t) (sym e) k

is_active-same : (c : Config) (m m' : Machine) → m'.space ≡ m.space → is_active c m' ≡ is_active c m
is_active-same c m m' e = ap (λ t. Model.active c (bits_of t)) e

append_nil : (events : List (ℕ × Event)) → events ++ [] ≡ events
append_nil [] = refl
append_nil (e ∷ events) = ap (λ t. e ∷ t) (append_nil events)

module _ (c : Config) (v : IsConfig c) where
  -- The end of a run, of which the session `from` was the start and `s` is the last session.
  finish-Ends :
      (limit : ℕ) (reason : Stop) (from s : Session)
      → IsMachine c s.machine
      → s.ticks ≤ limit
      → (reason ≡ stop_limit → s.ticks ≡ limit)
      → (reason ≡ stop_idle → is_active c s.machine ≡ false)
      → (reason ≡ stop_limit → is_active c s.machine ≡ true)
      → ((f : Final) → Leaves reason s f → Ran c limit f from)
      → Ends c limit from (finish c reason s)
  unfolding finish
  finish-Ends limit reason from s w p q off on ran =
      let (m, e, k) = space_read_processor-IsMachine c v s.machine w in
      let same = is_active-same c s.machine m k.1 in
      record {
        final = final_of reason s m;
        stops = ap (λ t. or_fault t (λ m'. stopped (final_of reason s m'))) e;
        sizes = k.0;
        within = p;
        at_the_limit = q;
        idle_inactive = λ h. same ∙ off h;
        limit_active = λ h. same ∙ on h;
        ran = ran (final_of reason s m) (record {
          reason_is = refl;
          ticks_is = refl;
          space_is = k.1;
          input_is = refl;
          output_is = refl;
          events_is = refl;
        });
      }

  -- The processor was read once more, which leaves space alone.
  Leaves-read :
      (reason : Stop) (s : Session) (m : Machine) (f : Final)
      → m.space ≡ s.machine.space
      → Leaves reason (record s { machine = m }) f
      → Leaves reason s f
  Leaves-read reason s m f e l = record {
    reason_is = l.reason_is;
    ticks_is = l.ticks_is;
    space_is = l.space_is ∙ e;
    input_is = l.input_is;
    output_is = l.output_is;
    events_is = l.events_is;
  }

  at_limit-Ends :
      (limit : ℕ) (s : Session) (m : Machine) (active : Bool)
      → IsMachine c m
      → s.ticks ≡ limit
      → m.space ≡ s.machine.space
      → active ≡ is_active c s.machine
      → Ends c limit s
          (finish c (if active then stop_limit else stop_idle) (record s { machine = m }))
  at_limit-Ends limit s m true w e d a =
      finish-Ends limit stop_limit s (record s { machine = m }) w (omega arith) (λ h. e)
        (λ h. absurd (cc)) (λ h. is_active-same c s.machine m d ∙ sym a)
        λ f l. limit_stop e (sym a) (Leaves-read stop_limit s m f d l)
  at_limit-Ends limit s m false w e d a =
      finish-Ends limit stop_idle s (record s { machine = m }) w (omega arith) (λ h. absurd (cc))
        (λ h. is_active-same c s.machine m d ∙ sym a) (λ h. absurd (cc))
        λ f l. idle_stop (omega arith) (sym a) (Leaves-read stop_idle s m f d l)

  limit_reached-Ends :
      (limit : ℕ) (s : Session)
      → IsMachine c s.machine
      → s.ticks ≡ limit
      → Ends c limit s (limit_reached c s)
  unfolding limit_reached
  limit_reached-Ends limit s w e =
      let (r, d, p) = space_active-Active c v s.machine w in
      Ends-of_eq c limit s (limit_reached c s)
        (finish c (if r.1 then stop_limit else stop_idle) (record s { machine = r.0 }))
        (ap
          (λ t.
            or_fault t
              (λ x. finish c (if x.1 then stop_limit else stop_idle) (record s { machine = x.0 })))
          d)
        (at_limit-Ends limit s r.0 r.1 p.0 e p.1 p.2)

  -- The end after a step that found space idle, which left the session as it was.
  Leaves-rest :
      (s : Session) (r : Stepped) (f : Final)
      → r.machine.space ≡ s.machine.space
      → r.input ≡ s.input
      → r.output ≡ s.output
      → r.events ≡ []
      → Leaves stop_idle (session_after s r) f
      → Leaves stop_idle s f
  Leaves-rest s r f a b d e l = record {
    reason_is = l.reason_is;
    ticks_is = l.ticks_is;
    space_is = l.space_is ∙ a;
    input_is = l.input_is ∙ b;
    output_is = l.output_is ∙ d;
    events_is = l.events_is ∙ ap (λ t. s.events ++ map (at_tick s.ticks) t) e ∙ append_nil s.events;
  }

  module _ (limit : ℕ) (next : Session → Outcome) (s : Session) (r : Stepped)
      (e : space_step c s.input s.output s.machine ≡ some r)
      (q : Steps c v (is_active c s.machine) s.input s.output s.machine r)
      (p : s.ticks < limit) where
    idle-Ends :
        is_active c s.machine ≡ false → Ends c limit s (finish c stop_idle (session_after s r))
    idle-Ends off =
        let (stay, space, input, output, events) = q.resting off in
        finish-Ends limit stop_idle s (session_after s r) q.sizes (omega arith) (λ h. absurd (cc))
          (λ h. is_active-same c s.machine r.machine space ∙ off) (λ h. absurd (cc))
          λ f l. idle_stop (omega arith) off (Leaves-rest s r f space input output events l)

    error-Ends :
        is_active c s.machine ≡ true
        → r.result ≡ error
        → Ends c limit s (finish c stop_error (session_after s r))
    error-Ends on h =
        finish-Ends limit stop_error s (session_after s r) q.sizes (omega arith) (λ t. absurd (cc))
          (λ t. absurd (cc)) (λ t. absurd (cc)) λ f l. error_stop p on e h l

    done-Ends :
        limit < 2 ^ 64
        → is_active c s.machine ≡ true
        → r.result ≡ done
        → ((s' : Session)
            → IsMachine c s'.machine
            → s.ticks < limit
            → s'.ticks ≡ s.ticks + 1
            → Ends c limit s' (next s'))
        → Ends c limit s (next (record (session_after s r) { ticks = tick s.ticks }))
    done-Ends b on h k =
        let one : tick s.ticks ≡ s.ticks + 1 = ground arith in
        let x = k (record (session_after s r) { ticks = tick s.ticks }) q.sizes p one in
        record {
          final = x.final;
          stops = x.stops;
          sizes = x.sizes;
          within = x.within;
          at_the_limit = x.at_the_limit;
          idle_inactive = x.idle_inactive;
          limit_active = x.limit_active;
          ran = done_step p on e h (
              subst (λ t. Ran c limit x.final (record (session_after s r) { ticks = t })) one
                x.ran);
        }

    -- The rest of the loop may be entered with the tick counted up.
    follow-Ends :
        limit < 2 ^ 64
        → ((s' : Session)
            → IsMachine c s'.machine
            → s.ticks < limit
            → s'.ticks ≡ s.ticks + 1
            → Ends c limit s' (next s'))
        → Ends c limit s (follow c r.result next (session_after s r))
    unfolding follow
    follow-Ends b k = elim (Bool-cases (is_active c s.machine)) [
      | inl on ↦ working on r.result refl
      | inr off ↦
          Ends-of_eq c limit s (follow c r.result next (session_after s r))
            (finish c stop_idle (session_after s r))
            (ap (λ t. follow c t next (session_after s r)) (q.resting off).0 ∙ rests)
            (idle-Ends off)
    ]
      where
        rests : follow c idle next (session_after s r) ≡ finish c stop_idle (session_after s r)
        rests = refl

        working :
            is_active c s.machine ≡ true
            → (result : StepResult) → r.result ≡ result
            → Ends c limit s (follow c result next (session_after s r))
        working on idle h = absurd (q.working on h)
        working on error h = error-Ends on h
        working on done h = done-Ends b on h k

  step_session-Ends :
      (limit : ℕ) (next : Session → Outcome) (s : Session)
      → IsMachine c s.machine
      → s.ticks < limit
      → limit < 2 ^ 64
      → ((s' : Session)
          → IsMachine c s'.machine
          → s.ticks < limit
          → s'.ticks ≡ s.ticks + 1
          → Ends c limit s' (next s'))
      → Ends c limit s (step_session c next s)
  unfolding step_session
  step_session-Ends limit next s w p b k =
      let (r, e, q) = space_step-Steps c v s.input s.output s.machine w in
      Ends-of_eq c limit s (step_session c next s) (follow c r.result next (session_after s r))
        (ap (λ t. or_fault t (λ x. follow c x.result next (session_after s x))) e)
        (follow-Ends limit next s r e q p b k)

  one_tick-Ends :
      (limit : ℕ) (reached : Bool) (next : Session → Outcome) (s : Session)
      → IsMachine c s.machine
      → s.ticks ≤ limit
      → limit < 2 ^ 64
      → reached ≡ (s.ticks == limit)
      → ((s' : Session)
          → IsMachine c s'.machine
          → s.ticks < limit
          → s'.ticks ≡ s.ticks + 1
          → Ends c limit s' (next s'))
      → Ends c limit s (one_tick c reached next s)
  unfolding one_tick
  one_tick-Ends limit true next s w p b e k = limit_reached-Ends limit s w (ground arith)
  one_tick-Ends limit false next s w p b e k = step_session-Ends limit next s w (ground arith) b k

  loop-Ends :
      (fuel limit : ℕ) (s : Session)
      → IsMachine c s.machine
      → s.ticks ≤ limit
      → limit < s.ticks + fuel
      → limit < 2 ^ 64
      → Ends c limit s (loop c fuel (some limit) s)
  unfolding loop at_limit
  loop-Ends zero limit s w p f b = absurd (omega arith)
  loop-Ends (suc fuel) limit s w p f b =
      one_tick-Ends limit (s.ticks == limit) (loop c fuel (some limit)) s w p b refl
        λ s' w' q e. loop-Ends fuel limit s' w' (omega arith) (omega arith) b

  -- With a tick limit, fuel for one round more than the limit is enough: on every machine of a
  -- valid configuration, whatever the streams do, the run stops, with no access out of range, after
  -- at most that many ticks. It comes to its result from the start by steps that are done, each of
  -- an active space and for one tick. It stops for the limit when it comes to the limit with
  -- space active; as idle when it comes to an inactive space, also at the limit; and for an error
  -- when a step of an active space before the limit fails, whose tick is not counted. Space, the
  -- streams and the events, each with its tick, are those that the last of the steps left.
  pub space_run-Ends :
      (fuel limit : ℕ) (input output : Port) (m : Machine)
      → IsMachine c m
      → limit < fuel
      → limit < 2 ^ 64
      → Ends c limit
          (record { ticks = 0; input = input; output = output; machine = m; events = [] })
          (space_run c fuel input output (some limit) m)
  unfolding space_run
  space_run-Ends fuel limit input output m w f b =
      loop-Ends fuel limit
        (record { ticks = 0; input = input; output = output; machine = m; events = [] }) w
        (omega arith) (omega arith) b
