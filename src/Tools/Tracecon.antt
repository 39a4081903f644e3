-- ===== src/Tools/Tracecon.antt =====
-- examples/rust/tracecon/src/bpf/tracecon.bpf.c, which reports the TCP connections of a process with
-- the host names that it resolved.
pub mod Names
pub mod Once
use ebpf_nids.Prelude.{
  ℕ, ◌/◌, ◌%◌, ◌^◌, Bool, not, ◌&&◌, Option, none, some, List, [], ◌∷◌, ◌++◌, take, ◌==◌,
  if◌then◌else◌,
}
use ebpf_nids.Prelude.Text.{Bytes}
use ebpf_nids.Kernel.Tracking.{TrackingMap}

-- `struct lookup`; `results` is a pointer of the traced process.
pub record Lookup : Type 0 where
  pub c : Bytes
  pub results : ℕ

-- `struct event` and its tags
pub record Event : Type 0 where
  pub tag : ℕ
  pub ip : ℕ
  pub hostname : Bytes

abbrev pub tag_ip : ℕ
tag_ip = 0

abbrev pub tag_hostname : ℕ
tag_hostname = 1

-- `get_tid`, with what `bpf_get_current_pid_tgid` returns; 0 says not to trace.
unfoldable pub get_tid : ℕ → ℕ → ℕ
get_tid target_pid tgid =
    if not (target_pid == 0) && not (target_pid == tgid / 2 ^ 32) then 0 else tgid % 2 ^ 32

-- The maps that the program declares.
pub record Kernel : Type 1 where
  pub lookups : TrackingMap Lookup
  pub hostnames : TrackingMap Lookup
  pub sockets : TrackingMap ℕ

module _ (k : Kernel) where
  -- Their states, and what was handed to `bpf_perf_event_output`.
  pub record Tracer : Type 0 where
    pub lookups : k.lookups.State
    pub hostnames : k.hostnames.State
    pub sockets : k.sockets.State
    pub events : List Event

  -- `hostname` is the string that `getaddrinfo` was called with: 83 bytes of it and the NUL fit.
  unfoldable pub getaddrinfo_enter : Tracer → ℕ → Bytes → ℕ → Tracer
  getaddrinfo_enter s tid hostname res =
      let lookup : Lookup = record { c = take 83 hostname; results = res } in
      if tid == 0 then s else record s { lookups = (k.lookups.update s.lookups tid lookup).1 }

  unfoldable pub forget_lookup : Tracer → ℕ → Tracer
  forget_lookup s tid = record s { lookups = k.lookups.delete s.lookups tid }

  -- `ret` is the word of the result, and `address` the address that is read through the pointer to
  -- the results.
  unfoldable pub getaddrinfo_exit : (ℕ → ℕ) → Tracer → ℕ → ℕ → Tracer
  unfolding forget_lookup
  getaddrinfo_exit address s tid ret =
      if tid == 0
      then s
      else if not (ret == 0)
      then forget_lookup s tid
      else elim (k.lookups.lookup s.lookups tid) [
        | none ↦ s
        | some lookup ↦
            let named = (k.hostnames.update s.hostnames (address lookup.results) lookup).1 in
            forget_lookup (record s { hostnames = named }) tid
      ]

  unfoldable pub tcp_v4_connect_enter : Tracer → ℕ → ℕ → Tracer
  tcp_v4_connect_enter s tid sk =
      if tid == 0 then s else record s { sockets = (k.sockets.update s.sockets tid sk).1 }

  unfoldable pub forget_socket : Tracer → ℕ → Tracer
  forget_socket s tid = record s { sockets = k.sockets.delete s.sockets tid }

  -- The event for a connection to `ip`.
  unfoldable pub report : Tracer → ℕ → Tracer
  report s ip = elim (k.hostnames.lookup s.hostnames ip) [
    | none ↦ record s {
      events = s.events ++ (record { tag = tag_ip; ip = ip; hostname = [] } ∷ []);
    }
    | some lookup ↦ record s {
      events = s.events ++ (record { tag = tag_hostname; ip = 0; hostname = lookup.c } ∷ []);
      hostnames = k.hostnames.delete s.hostnames ip;
    }
  ]

  -- `daddr` is the destination that a socket's kernel structure holds.
  unfoldable pub tcp_v4_connect_exit : (ℕ → ℕ) → Tracer → ℕ → ℕ → Tracer
  unfolding report forget_socket
  tcp_v4_connect_exit daddr s tid ret =
      if tid == 0
      then s
      else if not (ret == 0)
      then forget_socket s tid
      else elim (k.sockets.lookup s.sockets tid) [
        | none ↦ s
        | some sk ↦ forget_socket (report s (daddr sk)) tid
      ]

-- The probes as they fire, each with what `bpf_get_current_pid_tgid` returns.
pub data Call : Type 0 where
  resolve : ℕ → Bytes → ℕ → Call
  resolved : ℕ → (ℕ → ℕ) → ℕ → Call
  connect : ℕ → ℕ → Call
  connected : ℕ → (ℕ → ℕ) → ℕ → Call

module _ (k : Kernel) (target_pid : ℕ) where
  unfoldable pub step : Tracer k → Call → Tracer k
  unfolding get_tid
  step s (resolve id name res) = getaddrinfo_enter k s (get_tid target_pid id) name res
  step s (resolved id address ret) = getaddrinfo_exit k address s (get_tid target_pid id) ret
  step s (connect id sk) = tcp_v4_connect_enter k s (get_tid target_pid id) sk
  step s (connected id daddr ret) = tcp_v4_connect_exit k daddr s (get_tid target_pid id) ret

  unfoldable pub run : Tracer k → List Call → Tracer k
  unfolding step
  run s [] = s
  run s (c ∷ cs) = run (step s c) cs
