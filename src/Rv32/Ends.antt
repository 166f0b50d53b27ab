-- ===== src/Rv32/Ends.antt =====
-- The ways in which a step ends, and what each makes of the guest.
use copy_space.Base.{
  ℕ, ◌+◌, ◌<◌, ◌≤◌, ◌≡◌, refl, sym, ap, ◌∙◌, arith, Option, some, none, ◌^◌, ◌>>=◌, length,
  get_elem?, get_elem?-set_ne, true, false, not, ltb, ◌==◌, if◌then◌else◌, Bool-cases, inl, inr,
}
use mathlib.Core.Path.{subst}
use copy_space.Memory.{Bytes}
use copy_space.BitCopy.Spec.{Returns}
use copy_space.Rv32.{
  StopReason, TraceRecord, Vm, reason_code, rv_trace_pack_flags, rv32_trace_append,
  rv32_guest_commit, int32_sum,
}
use copy_space.Rv32.Execute.{with_space, stop_traced, write_back, check_failed, jump_traced}
use copy_space.Rv32.Guest.{
  Guest, guest_of, Effect, write, move, put, stop, after, set_reg, go, signed_sum,
}
use copy_space.Rv32.Values.{int32_sum-eq, signed_sum-lt}
use copy_space.Rv32.State.{
  IsVm, appended, append-eq, appended-IsVm, with_space-IsVm, Holds, Holds-refl,
  write_register-Holds, Became, rv32_guest_commit-Became, halted, stop-eq, halted-IsVm,
  halted-Became,
}

-- The reason is recorded and the guest no longer runs, or both are as they were.
abbrev pub Status : Effect → Vm → Vm → Type 0
Status (stop reason) vm vm' = (vm'.rv_guest_stop_reason ≡ reason) × (vm'.rv_guest_running ≡ 0)
Status (write rd v next) vm vm' =
    (vm'.rv_guest_stop_reason ≡ vm.rv_guest_stop_reason)
    × (vm'.rv_guest_running ≡ vm.rv_guest_running)
Status (move next) vm vm' =
    (vm'.rv_guest_stop_reason ≡ vm.rv_guest_stop_reason)
    × (vm'.rv_guest_running ≡ vm.rv_guest_running)
Status (put width addr v next) vm vm' =
    (vm'.rv_guest_stop_reason ≡ vm.rv_guest_stop_reason)
    × (vm'.rv_guest_running ≡ vm.rv_guest_running)

-- One record more, if the trace has room, and those before it as they were.
pub record Traced (vm vm' : Vm) : Type 0 where
  pub count_is : vm'.rv_trace_count ≡ (
      if ltb vm.rv_trace_count vm.rv_trace_capacity
      then vm.rv_trace_count + 1
      else vm.rv_trace_count)
  pub same_room : vm'.rv_trace_capacity ≡ vm.rv_trace_capacity
  pub earlier :
      (i : ℕ)
      → i < vm.rv_trace_count
      → get_elem? vm'.rv_trace_records i ≡ get_elem? vm.rv_trace_records i

pub record Obeys (e : Effect) (vm vm' : Vm) : Type 0 where
  pub valid : IsVm vm'
  pub guest : Became (after vm.halt e (guest_of vm.space)) vm.space vm'.space
  pub status : Status e vm vm'
  pub traced : Traced vm vm'

-- A call of the executor, and the effect that it has: it returns and obeys the effect, or has no
-- defined result where there is none.
pub data Stepped (vm : Vm) : Option Effect → Option Vm → Type 0 where
  undefined : Stepped vm none none
  obeyed : {e : Effect} {vm' : Vm} → Obeys e vm vm' → Stepped vm (some e) (some vm')

pub Returns-Stepped :
    {vm : Vm} {e : Effect} (r : Option Vm) → Returns r (Obeys e vm) → Stepped vm (some e) r
Returns-Stepped {vm} {e} r x =
    let (vm', d, o) = x in subst (λ t. Stepped vm (some e) t) (sym d) (obeyed o)

-- What follows a sum of two signed registers.
pub sum-Stepped :
    (vm : Vm) (a b : ℕ) (e : ℕ → Option Effect) (k : ℕ → Option Vm)
    → a < 2 ^ 32
    → b < 2 ^ 32
    → ((x : ℕ) → x < 2 ^ 32 → Stepped vm (e x) (k x))
    → Stepped vm (signed_sum a b >>= e) (int32_sum a b >>= k)
sum-Stepped vm a b e k p q f = rw (int32_sum-eq a b p q) (by_sum (signed_sum a b) refl)
  where
    by_sum : (s : Option ℕ) → signed_sum a b ≡ s → Stepped vm (s >>= e) (s >>= k)
    by_sum none h = undefined
    by_sum (some x) h = f x (signed_sum-lt a b x h)

pub space_large : (vm : Vm) → IsVm vm → 1024 ≤ length vm.space
space_large vm v = omega (arith, v.whole, v.registers_inside)

appended-Traced : (vm : Vm) (tr : TraceRecord) → IsVm vm → Traced vm (appended vm tr)
appended-Traced vm tr v = elim (Bool-cases (ltb vm.rv_trace_count vm.rv_trace_capacity)) [
  | inl room ↦
      let less : vm.rv_trace_count < vm.rv_trace_capacity = ground arith in
      record {
        count_is = rw room (omega (arith, v.trace_small));
        same_room = refl;
        earlier = λ i h.
            rw room (get_elem?-set_ne vm.rv_trace_records vm.rv_trace_count i tr (omega arith));
      }
  | inr full ↦ record { count_is = rw full refl; same_room = refl; earlier = λ i h. rw full refl }
]

pub stop_traced-Obeys :
    (vm : Vm) (tr : TraceRecord) (reason : StopReason)
    → IsVm vm
    → Returns (stop_traced vm tr reason) (Obeys (stop reason) vm)
unfolding stop_traced
stop_traced-Obeys vm tr reason v =
    let tr' = record tr { flags = rv_trace_pack_flags false false true 0 (reason_code reason) } in
    let v' = appended-IsVm vm tr' v in
    let t = appended-Traced vm tr' v in
    (
      halted (appended vm tr') reason,
      rw (append-eq vm tr' v) (stop-eq (appended vm tr') reason v'),
      record {
        valid = halted-IsVm (appended vm tr') reason v';
        guest = halted-Became (appended vm tr') reason v';
        status = (refl, refl);
        traced = record { count_is = t.count_is; same_room = t.same_room; earlier = t.earlier };
      },
    )

-- A check of an address that stopped the guest.
pub check_failed-Obeys :
    (vm : Vm) (tr : TraceRecord) (reason : StopReason) (width : ℕ)
    → IsVm vm
    → Returns (check_failed (halted vm reason) tr width) (Obeys (stop reason) vm)
unfolding check_failed
check_failed-Obeys vm tr reason width v =
    let tr' = record tr {
      flags = rv_trace_pack_flags false false true width (reason_code reason);
    } in
    let v' = halted-IsVm vm reason v in
    let t = appended-Traced (halted vm reason) tr' v' in
    (
      appended (halted vm reason) tr',
      append-eq (halted vm reason) tr' v',
      record {
        valid = appended-IsVm (halted vm reason) tr' v';
        guest = halted-Became vm reason v;
        status = (refl, refl);
        traced = record { count_is = t.count_is; same_room = t.same_room; earlier = t.earlier };
      },
    )

-- A record appended after space changed, and the commit after it.
module _ (vm : Vm) (tr : TraceRecord) (m : Bytes) (g : Guest) (next : ℕ) (v : IsVm vm)
    (held : Holds g vm.space m) where
  abbrev changed : Vm
  changed = appended (with_space vm m) tr

  changed-IsVm : IsVm changed
  changed-IsVm = appended-IsVm (with_space vm m) tr (with_space-IsVm vm m held.same_length v)

  pub finished :
      (m' : Bytes) × ((rv32_trace_append (with_space vm m) tr >>= λ x. rv32_guest_commit x next)
        ≡ some (with_space changed m'))
      × IsVm (with_space changed m')
      × Became (go next g) vm.space m'
      × Traced vm (with_space changed m')
  finished =
      let (m', e, b) = rv32_guest_commit-Became changed g vm.space next (space_large vm v) held in
      let t = appended-Traced (with_space vm m) tr (with_space-IsVm vm m held.same_length v) in
      (
        m',
        ap (λ t. t >>= λ x. rv32_guest_commit x next)
              (append-eq (with_space vm m) tr (with_space-IsVm vm m held.same_length v))
            ∙ e,
        with_space-IsVm changed m' (b.same_length ∙ sym held.same_length) changed-IsVm,
        b,
        record { count_is = t.count_is; same_room = t.same_room; earlier = t.earlier },
      )

pub write_back-Obeys :
    (vm : Vm) (tr : TraceRecord) (rd v width next : ℕ)
    → IsVm vm
    → rd < 32
    → Returns (write_back vm tr rd v width next) (Obeys (write rd v next) vm)
unfolding write_back
write_back-Obeys vm tr rd v width next w h =
    let tr' = record tr {
      rd_value = v;
      flags = rv_trace_pack_flags (not (rd == 0)) false false width 0;
    } in
    let (m, d, held) = write_register-Holds vm.space rd v (space_large vm w) h in
    let (m', e, valid, became, traced) =
      finished vm tr' m (set_reg rd v (guest_of vm.space)) next w held in
    (
      with_space (appended (with_space vm m) tr') m',
      rw d e,
      record { valid = valid; guest = became; status = (refl, refl); traced = traced },
    )

pub jump_traced-Obeys :
    (vm : Vm) (tr : TraceRecord) (next : ℕ)
    → IsVm vm
    → Returns (jump_traced vm tr next) (Obeys (move next) vm)
unfolding jump_traced
jump_traced-Obeys vm tr next w =
    let tr' = record tr { flags = rv_trace_pack_flags false false false 0 0 } in
    let (m', e, valid, became, traced) =
      finished vm tr' vm.space (guest_of vm.space) next w (Holds-refl vm.space) in
    (
      with_space (appended vm tr') m',
      e,
      record { valid = valid; guest = became; status = (refl, refl); traced = traced },
    )
