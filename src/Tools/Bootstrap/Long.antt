-- ===== src/Tools/Bootstrap/Long.antt =====
-- The minimum duration of examples/c/bootstrap.bpf.c.
use ebpf_nids.Prelude.{
  ℕ, ◌/◌, ◌%◌, ◌^◌, ◌≤◌, ◌≡◌, refl, true, false, not, ◌&&◌, Option, none, some, List, [], ◌∷◌, ◌++◌,
  arith, ltb, ◌==◌, Bool-cases, Option-cases, inl, inr, if_both,
}
use ebpf_nids.Kernel.Tracking.{TrackingMap}
use ebpf_nids.Tools.Bootstrap.{
  Event, Task, sub64, Tracer, submit_event, handle_exec, report_exit, handle_exit, Call, exec, exit,
  run,
}

-- An exit after at least `min`.
abbrev pub IsLongExit : ℕ → Event → Type 0
IsLongExit min e = (e.exit_event ≡ true) × (min ≤ e.duration_ns)

unfoldable pub AllLong : ℕ → List Event → Type 0
AllLong min [] = Unit {0}
AllLong min (e ∷ es) = IsLongExit min e × AllLong min es

AllLong-snoc :
    (min : ℕ) (es : List Event) (e : Event)
    → AllLong min es
    → IsLongExit min e
    → AllLong min (es ++ (e ∷ []))
unfolding AllLong
AllLong-snoc min [] e h l = (l, tt)
AllLong-snoc min (x ∷ es) e h l = (h.0, AllLong-snoc min es e h.1 l)

module _ (m : TrackingMap ℕ) (min : ℕ) (positive : (min == 0) ≡ false) where
  Good : Tracer m → Type 0
  Good s = AllLong min s.rb

  handle_exec-Good :
      (s : Tracer m) (r : Option Event) (pid ts : ℕ) (k : Task)
      → Good s
      → Good (handle_exec m min r s pid ts k)
  unfolding Good handle_exec
  handle_exec-Good s r pid ts k g = rw (positive, handle_exec) g

  report_exit-Good :
      (s : Tracer m) (r : Option Event) (pid d : ℕ) (k : Task)
      → Good s
      → Good (report_exit m min r s pid d k)
  unfolding Good report_exit submit_event
  report_exit-Good s none pid d k g =
      if_both (λ (t : Tracer m). AllLong min t.rb) (not (min == 0) && ltb d min) g g
  report_exit-Good s (some e) pid d k g = elim (Bool-cases (ltb d min)) [
    | inl h ↦ rw (positive, h, report_exit) g
    | inr h ↦
        rw (positive, h, report_exit, submit_event) (AllLong-snoc min s.rb _ g (refl, ground arith))
  ]

  handle_exit-Good :
      (s : Tracer m) (r : Option Event) (id ts : ℕ) (k : Task)
      → Good s
      → Good (handle_exit m min r s id ts k)
  unfolding handle_exit
  handle_exit-Good s r id ts k g = elim (Option-cases (m.lookup s.exec_start (id / 2 ^ 32))) [
    | inl e ↦ rw (e, positive, handle_exit) (if_both Good (not (id / 2 ^ 32 == id % 2 ^ 32)) g g)
    | inr (t, e) ↦
        rw (e, handle_exit)
          (if_both Good (not (id / 2 ^ 32 == id % 2 ^ 32)) g
            (report_exit-Good s r (id / 2 ^ 32) (sub64 ts t) k g))
  ]

  -- With a minimum duration, whatever tracepoints fire, every sample in the ring buffer is an exit
  -- whose duration is at least the minimum, if that holds at the start.
  pub run-AllLong :
      (s : Tracer m) (cs : List Call) → AllLong min s.rb → AllLong min (run m min s cs).rb
  unfolding run Good
  run-AllLong s [] g = g
  run-AllLong s (exec r pid ts k ∷ cs) g =
      run-AllLong (handle_exec m min r s pid ts k) cs (handle_exec-Good s r pid ts k g)
  run-AllLong s (exit r id ts k ∷ cs) g =
      run-AllLong (handle_exit m min r s id ts k) cs (handle_exit-Good s r id ts k g)
