-- ===== src/Tools/Tracecon/Names.antt =====
-- Where the names come from that examples/rust/tracecon/src/bpf/tracecon.bpf.c reports.
use ebpf_nids.Prelude.{
  ℕ, ◌≡◌, not, List, [], ◌∷◌, ◌++◌, arith, take, ◌==◌, Option-cases, inl, inr, if_both,
}
use ebpf_nids.Prelude.Text.{Bytes}
use ebpf_nids.Kernel.Tracking.{HoldsAll, HoldsAll-update, HoldsAll-delete}
use ebpf_nids.Tools.Tracecon.{
  Lookup, Event, tag_hostname, get_tid, Kernel, Tracer, getaddrinfo_enter, forget_lookup,
  getaddrinfo_exit, tcp_v4_connect_enter, forget_socket, report, tcp_v4_connect_exit, Call, resolve,
  resolved, connect, connected, step, run,
}

module _ (P : Bytes → Type 0) where
  -- A name that is reported has the property.
  unfoldable pub AllNamed : List Event → Type 0
  AllNamed [] = Unit {0}
  AllNamed (e ∷ es) = (e.tag ≡ tag_hostname → P e.hostname) × AllNamed es

  -- Each name that `getaddrinfo` is called with has it, as far as the buffer holds the name.
  unfoldable pub AllAsked : List Call → Type 0
  AllAsked [] = Unit {0}
  AllAsked (resolve id name res ∷ cs) = P (take 83 name) × AllAsked cs
  AllAsked (_ ∷ cs) = AllAsked cs

  AllNamed-snoc :
      (es : List Event) (e : Event)
      → AllNamed es
      → (e.tag ≡ tag_hostname → P e.hostname)
      → AllNamed (es ++ (e ∷ []))
  unfolding AllNamed
  AllNamed-snoc [] e h p = (p, tt)
  AllNamed-snoc (x ∷ es) e h p = (h.0, AllNamed-snoc es e h.1 p)

module _ (k : Kernel) (P : Bytes → Type 0) where
  abbrev pub HasName : Lookup → Type 0
  HasName l = P l.c

  -- Every name that is stored or was reported has the property.
  pub record Traced (s : Tracer k) : Type 0 where
    pub lookups : HoldsAll k.lookups HasName s.lookups
    pub hostnames : HoldsAll k.hostnames HasName s.hostnames
    pub events : AllNamed P s.events

  Traced-getaddrinfo_enter :
      (s : Tracer k) (tid : ℕ) (name : Bytes) (res : ℕ)
      → Traced s
      → P (take 83 name)
      → Traced (getaddrinfo_enter k s tid name res)
  unfolding getaddrinfo_enter
  Traced-getaddrinfo_enter s tid name res t p = if_both Traced (tid == 0) t (record {
    lookups = HoldsAll-update k.lookups HasName s.lookups tid _ t.lookups p;
    hostnames = t.hostnames;
    events = t.events;
  })

  Traced-forget_lookup : (s : Tracer k) (tid : ℕ) → Traced s → Traced (forget_lookup k s tid)
  unfolding forget_lookup
  Traced-forget_lookup s tid t = record {
    lookups = HoldsAll-delete k.lookups HasName s.lookups tid t.lookups;
    hostnames = t.hostnames;
    events = t.events;
  }

  Traced-getaddrinfo_exit :
      (address : ℕ → ℕ) (s : Tracer k) (tid ret : ℕ)
      → Traced s
      → Traced (getaddrinfo_exit k address s tid ret)
  unfolding getaddrinfo_exit
  Traced-getaddrinfo_exit address s tid ret t = if_both Traced (tid == 0) t (
      if_both Traced (not (ret == 0)) (Traced-forget_lookup s tid t)
        (elim (Option-cases (k.lookups.lookup s.lookups tid)) [
          | inl e ↦ rw (e, getaddrinfo_exit) t
          | inr (l, e) ↦
              rw (e, getaddrinfo_exit)
                (Traced-forget_lookup _ tid (record {
                  lookups = t.lookups;
                  hostnames =
                      HoldsAll-update k.hostnames HasName s.hostnames (address l.results) l
                        t.hostnames (t.lookups tid l e);
                  events = t.events;
                }))
        ]))

  Traced-report : (s : Tracer k) (ip : ℕ) → Traced s → Traced (report k s ip)
  unfolding report
  Traced-report s ip t = elim (Option-cases (k.hostnames.lookup s.hostnames ip)) [
    | inl e ↦
        rw (e, report)
          (record {
            lookups = t.lookups;
            hostnames = t.hostnames;
            events = AllNamed-snoc P s.events _ t.events (λ h. absurd (ground arith));
          })
    | inr (l, e) ↦
        rw (e, report)
          (record {
            lookups = t.lookups;
            hostnames = HoldsAll-delete k.hostnames HasName s.hostnames ip t.hostnames;
            events = AllNamed-snoc P s.events _ t.events (λ h. t.hostnames ip l e);
          })
  ]

  Traced-tcp_v4_connect_exit :
      (daddr : ℕ → ℕ) (s : Tracer k) (tid ret : ℕ)
      → Traced s
      → Traced (tcp_v4_connect_exit k daddr s tid ret)
  unfolding tcp_v4_connect_exit forget_socket
  Traced-tcp_v4_connect_exit daddr s tid ret t = if_both Traced (tid == 0) t (
      if_both Traced (not (ret == 0)) (same s t)
        (elim (Option-cases (k.sockets.lookup s.sockets tid)) [
          | inl e ↦ rw (e, tcp_v4_connect_exit) t
          | inr (sk, e) ↦
              rw (e, tcp_v4_connect_exit)
                (same (report k s (daddr sk)) (Traced-report s (daddr sk) t))
        ]))
    where
      same : (s : Tracer k) → Traced s → Traced (forget_socket k s tid)
      same s t = record { lookups = t.lookups; hostnames = t.hostnames; events = t.events }

  Traced-tcp_v4_connect_enter :
      (s : Tracer k) (tid sk : ℕ) → Traced s → Traced (tcp_v4_connect_enter k s tid sk)
  unfolding tcp_v4_connect_enter
  Traced-tcp_v4_connect_enter s tid sk t =
      if_both Traced (tid == 0) t
        (record { lookups = t.lookups; hostnames = t.hostnames; events = t.events })

  -- Whatever probes fire in whatever order: what holds of each name that `getaddrinfo` is called
  -- with, cut to 83 bytes, and of the names stored at the start, holds of every name that is stored
  -- or reported.
  pub run-Traced :
      (target : ℕ) (s : Tracer k) (cs : List Call)
      → Traced s
      → AllAsked P cs
      → Traced (run k target s cs)
  unfolding run step AllAsked
  run-Traced target s [] t a = t
  run-Traced target s (resolve id name res ∷ cs) t a =
      run-Traced target (step k target s (resolve id name res)) cs
        (Traced-getaddrinfo_enter s (get_tid target id) name res t a.0) a.1
  run-Traced target s (resolved id address ret ∷ cs) t a =
      run-Traced target (step k target s (resolved id address ret)) cs
        (Traced-getaddrinfo_exit address s (get_tid target id) ret t) a
  run-Traced target s (connect id sk ∷ cs) t a =
      run-Traced target (step k target s (connect id sk)) cs
        (Traced-tcp_v4_connect_enter s (get_tid target id) sk t) a
  run-Traced target s (connected id daddr ret ∷ cs) t a =
      run-Traced target (step k target s (connected id daddr ret)) cs
        (Traced-tcp_v4_connect_exit daddr s (get_tid target id) ret t) a
