-- ===== src/Tools/Bootstrap/Lifetime.antt =====
-- The lifetime that examples/c/bootstrap.bpf.c measures, with other processes coming and going in
-- between.
use ebpf_nids.Prelude.{
  ℕ, ◌+◌, ◌*◌, ◌/◌, ◌%◌, ◌^◌, ◌<◌, ◌≡◌, refl, ap, ◌∙◌, true, false, not, ◌&&◌, Option, none, some,
  List, [], ◌∷◌, ◌++◌, arith, ltb, ◌==◌, if◌then◌else◌, Bool-cases, Option-cases, inl, inr, if_both,
  eq_refl,
}
use ebpf_nids.Kernel.Tracking.{TrackingMap}
use ebpf_nids.Tools.Bootstrap.{
  Event, Task, sub64, Tracer, submit_event, handle_exec, report_exit, handle_exit, Call, exec, exit,
  step, run,
}

-- The call is not about process `p`.
unfoldable pub IsOther : ℕ → Call → Type 0
IsOther p (exec r pid ts task) = (pid == p) ≡ false
IsOther p (exit r id ts task) = (id / 2 ^ 32 == p) ≡ false

unfoldable pub AllOther : ℕ → List Call → Type 0
AllOther p [] = Unit {0}
AllOther p (c ∷ cs) = IsOther p c × AllOther p cs

-- The sample that an exit leaves in the memory that was reserved for it.
abbrev pub exit_sample : Event → ℕ → ℕ → Task → Event
exit_sample e p d task = record e {
  exit_event = true;
  duration_ns = d;
  pid = p;
  ppid = task.ppid;
  exit_code = task.exit_code / 256 % 256;
  comm = task.comm;
}

module _ (m : TrackingMap ℕ) (min : ℕ) where
  started : Tracer m → ℕ → Option ℕ
  started s p = m.lookup s.exec_start p

  started-handle_exec :
      (s : Tracer m) (r : Option Event) (pid ts : ℕ) (k : Task) (p : ℕ)
      → started (handle_exec m min r s pid ts k) p
        ≡ (if (m.update s.exec_start pid ts).0 && pid == p then some ts else started s p)
  unfolding started handle_exec submit_event
  started-handle_exec s none pid ts k p =
      if_both
        (λ (t : Tracer m).
          started t p
          ≡ (if (m.update s.exec_start pid ts).0 && pid == p then some ts else started s p))
        (not (min == 0)) (m.lookup-update s.exec_start pid ts p)
        (m.lookup-update s.exec_start pid ts p)
  started-handle_exec s (some e) pid ts k p =
      if_both
        (λ (t : Tracer m).
          started t p
          ≡ (if (m.update s.exec_start pid ts).0 && pid == p then some ts else started s p))
        (not (min == 0)) (m.lookup-update s.exec_start pid ts p)
        (m.lookup-update s.exec_start pid ts p)

  started-report_exit :
      (s : Tracer m) (r : Option Event) (pid d : ℕ) (k : Task) (p : ℕ)
      → started (report_exit m min r s pid d k) p ≡ (if pid == p then none else started s p)
  unfolding started report_exit submit_event
  started-report_exit s none pid d k p =
      if_both (λ (t : Tracer m). started t p ≡ (if pid == p then none else started s p))
        (not (min == 0) && ltb d min) (m.lookup-delete s.exec_start pid p)
        (m.lookup-delete s.exec_start pid p)
  started-report_exit s (some e) pid d k p =
      if_both (λ (t : Tracer m). started t p ≡ (if pid == p then none else started s p))
        (not (min == 0) && ltb d min) (m.lookup-delete s.exec_start pid p)
        (m.lookup-delete s.exec_start pid p)

  started-report_other :
      (s : Tracer m) (r : Option Event) (pid d : ℕ) (k : Task) (p : ℕ)
      → (pid == p) ≡ false
      → started (report_exit m min r s pid d k) p ≡ started s p
  started-report_other s r pid d k p o = ground (arith, started-report_exit s r pid d k p)

  started-step :
      (s : Tracer m) (c : Call) (p : ℕ) → IsOther p c → started (step m min s c) p ≡ started s p
  unfolding IsOther handle_exit
  started-step s (exec r pid ts k) p o = ground (arith, started-handle_exec s r pid ts k p)
  started-step s (exit r id ts k) p o = elim (Option-cases (m.lookup s.exec_start (id / 2 ^ 32))) [
    | inl e ↦
        rw (e, handle_exit)
          (if_both (λ (t : Tracer m). started t p ≡ started s p) (not (id / 2 ^ 32 == id % 2 ^ 32))
            refl
            (if_both (λ (t : Tracer m). started t p ≡ started s p) (not (min == 0)) refl
              (started-report_other s r (id / 2 ^ 32) 0 k p o)))
    | inr (t, e) ↦
        rw (e, handle_exit)
          (if_both (λ (t : Tracer m). started t p ≡ started s p) (not (id / 2 ^ 32 == id % 2 ^ 32))
            refl (started-report_other s r (id / 2 ^ 32) (sub64 ts t) k p o))
  ]

  started-run :
      (s : Tracer m) (cs : List Call) (p : ℕ)
      → AllOther p cs
      → started (run m min s cs) p ≡ started s p
  unfolding AllOther run
  started-run s [] p o = refl
  started-run s (c ∷ cs) p o = started-run (step m min s c) cs p o.1 ∙ started-step s c p o.0

  handle_exit_at :
      (s : Tracer m) (r : Option Event) (id ts t0 : ℕ) (k : Task)
      → (id / 2 ^ 32 == id % 2 ^ 32) ≡ true
      → started s (id / 2 ^ 32) ≡ some t0
      → handle_exit m min r s id ts k ≡ report_exit m min r s (id / 2 ^ 32) (sub64 ts t0) k
  unfolding started handle_exit
  handle_exit_at s r id ts t0 k h e = rw (h, e, handle_exit) refl

  -- `handle_exit` of the process itself, where the map knows its start.
  handle_exit-started :
      (s : Tracer m) (r : Option Event) (p ts t0 : ℕ) (k : Task)
      → p < 2 ^ 32
      → started s p ≡ some t0
      → handle_exit m min r s (p * 2 ^ 32 + p) ts k ≡ report_exit m min r s p (sub64 ts t0) k
  handle_exit-started s r p ts t0 k small e =
      let high : (p * 2 ^ 32 + p) / 2 ^ 32 ≡ p = omega arith in
      handle_exit_at s r (p * 2 ^ 32 + p) ts t0 k (ground arith) (ap (started s) high ∙ e)
      ∙ ap (λ q. report_exit m min r s q (sub64 ts t0) k) high

  rb-report_exit :
      (s : Tracer m) (e : Event) (p d : ℕ) (k : Task)
      → (report_exit m min (some e) s p d k).rb
        ≡ (if not (min == 0) && ltb d min then s.rb else s.rb ++ (exit_sample e p d k ∷ []))
  unfolding report_exit submit_event
  rb-report_exit s e p d k = elim (Bool-cases (not (min == 0) && ltb d min)) [
    | inl h ↦ rw (h, report_exit) refl
    | inr h ↦ rw (h, report_exit) refl
  ]

  -- What the exit of `p` at `t1` leaves, if its start was at `t0` and `s` is what it finds.
  pub IsLifetime : Tracer m → Event → ℕ → ℕ → ℕ → Task → Type 0
  unfolding started
  IsLifetime s e p t0 t1 k =
      let s' = handle_exit m min (some e) s (p * 2 ^ 32 + p) t1 k in
      (s'.rb ≡ (
        if not (min == 0) && ltb (sub64 t1 t0) min
        then s.rb
        else s.rb ++ (exit_sample e p (sub64 t1 t0) k ∷ [])))
      × (m.lookup s'.exec_start p ≡ none)

  -- If the start of process `p` was recorded at `t0`, and then come any tracepoints that are not
  -- about `p`, its exit at `t1` is reported with the duration `t1 - t0` (modulo 2^64), unless that
  -- is below the minimum, and the map forgets `p`.
  pub lifetime :
      (s : Tracer m) (r : Option Event) (e : Event) (p t0 t1 : ℕ) (k0 k1 : Task) (cs : List Call)
      → p < 2 ^ 32
      → (m.update s.exec_start p t0).0 ≡ true
      → AllOther p cs
      → IsLifetime (run m min s (exec r p t0 k0 ∷ cs)) e p t0 t1 k1
  unfolding IsLifetime run started
  lifetime s r e p t0 t1 k0 k1 cs small ok others =
      let s0 = step m min s (exec r p t0 k0) in
      let found : started s0 p ≡ some t0 =
        started-handle_exec s r p t0 k0 p ∙ rw (ok, eq_refl p) refl in
      let kept = started-run s0 cs p others ∙ found in
      rw (handle_exit-started (run m min s0 cs) (some e) p t1 t0 k1 small kept) (
        rb-report_exit (run m min s0 cs) e p (sub64 t1 t0) k1,
        started-report_exit (run m min s0 cs) (some e) p (sub64 t1 t0) k1 p ∙ rw (eq_refl p) refl,
      )
