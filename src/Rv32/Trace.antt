-- ===== src/Rv32/Trace.antt =====
-- The trace over any number of steps.
use copy_space.Base.{
  ℕ, zero, suc, ◌+◌, ◌<◌, ◌≡◌, refl, ap, arith, Option, some, none, ◌>>=◌, min, get_elem?, ◌∙◌,
}
use copy_space.Rv32.{Vm}
use copy_space.Rv32.Execute.{rv32_guest_step}
use copy_space.Rv32.Guest.{guest_of, Effect, effect}
use copy_space.Rv32.State.{IsVm, memory_size}
use copy_space.Rv32.Ends.{Obeys, Stepped, undefined, obeyed}
use copy_space.Rv32.Step.{rv32_guest_step-Stepped}

-- Steps one after the other, as calls of `vm_tick` make them.
unfoldable pub guest_steps : ℕ → Vm → Option Vm
guest_steps zero vm = some vm
guest_steps (suc n) vm = do vm' ← rv32_guest_step vm; guest_steps n vm'

-- After `n` steps the trace holds one record for each, or is full, and no record was overwritten.
pub record Recorded (n : ℕ) (vm vm' : Vm) : Type 0 where
  pub valid : IsVm vm'
  pub same_room : vm'.rv_trace_capacity ≡ vm.rv_trace_capacity
  pub count_is : vm'.rv_trace_count ≡ min (vm.rv_trace_count + n) vm.rv_trace_capacity
  pub earlier :
      (i : ℕ)
      → i < vm.rv_trace_count
      → get_elem? vm'.rv_trace_records i ≡ get_elem? vm.rv_trace_records i

-- The two ways in which steps one after the other end: with the trace as recorded, or without a
-- defined result, where some earlier steps led to an instruction whose sum is undefined.
pub data TraceAfter (n : ℕ) (vm : Vm) : Option Vm → Type 0 where
  recorded : {vm' : Vm} → Recorded n vm vm' → TraceAfter n vm (some vm')
  undefined_sum :
      {m : ℕ} {vm' : Vm}
      → m < n
      → guest_steps m vm ≡ some vm'
      → effect (memory_size vm') (guest_of vm'.space) ≡ none
      → TraceAfter n vm none

-- A step before `n` others.
Recorded-step :
    (n : ℕ) (vm vm' vm'' : Vm) (e : Effect)
    → IsVm vm
    → Obeys e vm vm'
    → Recorded n vm' vm''
    → Recorded (suc n) vm vm''
Recorded-step n vm vm' vm'' e v o r =
    let t = o.traced in
    record {
      valid = r.valid;
      same_room = r.same_room ∙ t.same_room;
      count_is = ground (arith, r.count_is, t.count_is, t.same_room, v.counted);
      earlier = λ i h. r.earlier i (ground (arith, t.count_is)) ∙ t.earlier i h;
    }

-- Any number of steps makes no access outside space or the trace. If no step comes to an instruction
-- with an undefined sum, all return, and then the trace counter is that many higher, or the
-- capacity where that is less; the capacity is as it was, and no record that was in the trace before
-- is overwritten.
pub guest_steps-TraceAfter : (n : ℕ) (vm : Vm) → IsVm vm → TraceAfter n vm (guest_steps n vm)
unfolding guest_steps
guest_steps-TraceAfter zero vm v = recorded (record {
  valid = v;
  same_room = refl;
  count_is = omega (arith, v.counted);
  earlier = λ i h. refl;
})
guest_steps-TraceAfter (suc n) vm v =
    first (effect (memory_size vm) (guest_of vm.space)) (rv32_guest_step vm) refl refl
      (rv32_guest_step-Stepped vm v) (guest_steps-TraceAfter n)
  where
    later :
        (vm' : Vm) (e : Effect) (out : Option Vm)
        → rv32_guest_step vm ≡ some vm'
        → Obeys e vm vm'
        → TraceAfter n vm' out
        → TraceAfter (suc n) vm out
    later vm' e _ d o (recorded {vm' = vm''} r) = recorded (Recorded-step n vm vm' vm'' e v o r)
    later vm' e _ d o (undefined_sum {m} {vm' = vm''} l s u) =
        undefined_sum {m = suc m} (omega arith) (ap (λ t. t >>= guest_steps m) d ∙ s) u

    first :
        (e : Option Effect) (r : Option Vm)
        → effect (memory_size vm) (guest_of vm.space) ≡ e
        → rv32_guest_step vm ≡ r
        → Stepped vm e r
        → ((vm' : Vm) → IsVm vm' → TraceAfter n vm' (guest_steps n vm'))
        → TraceAfter (suc n) vm (r >>= guest_steps n)
    first _ _ u d undefined rest = undefined_sum {m = 0} {vm' = vm} (omega arith) refl u
    first _ _ u d (obeyed {e} {vm'} o) rest = later vm' e (guest_steps n vm') d o (rest vm' o.valid)
