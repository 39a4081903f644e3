-- ===== src/Tools/Tracecon/Once.antt =====
-- A whole connection in examples/rust/tracecon/src/bpf/tracecon.bpf.c, from the name to the reports.
use ebpf_nids.Prelude.{
  ℕ, ◌≡◌, refl, ap, sym, ◌∙◌, true, false, none, some, [], ◌∷◌, ◌++◌, take, ◌==◌, eq_refl,
}
use ebpf_nids.Prelude.Text.{Bytes}
use ebpf_nids.Kernel.Tracking.{TrackingMap}
use ebpf_nids.Tools.Tracecon.{
  Lookup, tag_ip, tag_hostname, get_tid, Kernel, Tracer, getaddrinfo_enter, forget_lookup,
  getaddrinfo_exit, tcp_v4_connect_enter, forget_socket, report, tcp_v4_connect_exit, resolve,
  resolved, connect, connected, step, run,
}

-- The map as it is has room for a value at the key.
abbrev pub HasRoom : {V : Type 0} → (h : TrackingMap V) → h.State → ℕ → Type 0
HasRoom {V = V} h m k = (v : V) → (h.update m k v).0 ≡ true

module _ {V : Type 0} (h : TrackingMap V) where
  lookup-update_self :
      (m : h.State) (k : ℕ) (v : V) → HasRoom h m k → h.lookup (h.update m k v).1 k ≡ some v
  lookup-update_self m k v room = h.lookup-update m k v k ∙ rw (room v, eq_refl k) refl

module _ (k : Kernel) where
  -- A connection of a traced thread that succeeds.
  abbrev connection : (ℕ → ℕ) → Tracer k → ℕ → ℕ → Tracer k
  connection daddr s tid sk = tcp_v4_connect_exit k daddr (tcp_v4_connect_enter k s tid sk) tid 0

  traced_enter :
      (s : Tracer k) (tid sk : ℕ)
      → (tid == 0) ≡ false
      → tcp_v4_connect_enter k s tid sk
        ≡ record s { sockets = (k.sockets.update s.sockets tid sk).1 }
  unfolding tcp_v4_connect_enter
  traced_enter s tid sk nz = rw nz refl

  traced_exit :
      (daddr : ℕ → ℕ) (s : Tracer k) (tid sk : ℕ)
      → (tid == 0) ≡ false
      → k.sockets.lookup s.sockets tid ≡ some sk
      → tcp_v4_connect_exit k daddr s tid 0 ≡ forget_socket k (report k s (daddr sk)) tid
  unfolding tcp_v4_connect_exit
  traced_exit daddr s tid sk nz found = rw (nz, found, tcp_v4_connect_exit) refl

  connection_lem :
      (daddr : ℕ → ℕ) (s : Tracer k) (tid sk : ℕ)
      → (tid == 0) ≡ false
      → HasRoom k.sockets s.sockets tid
      → connection daddr s tid sk
        ≡ forget_socket k
            (report k (record s { sockets = (k.sockets.update s.sockets tid sk).1 }) (daddr sk))
            tid
  connection_lem daddr s tid sk nz room =
      ap (λ t. tcp_v4_connect_exit k daddr t tid 0) (traced_enter s tid sk nz)
      ∙ traced_exit daddr (record s { sockets = (k.sockets.update s.sockets tid sk).1 }) tid sk nz
          (lookup-update_self k.sockets s.sockets tid sk room)

  connection_named :
      (daddr : ℕ → ℕ) (s : Tracer k) (tid sk : ℕ) (l : Lookup)
      → (tid == 0) ≡ false
      → HasRoom k.sockets s.sockets tid
      → k.hostnames.lookup s.hostnames (daddr sk) ≡ some l
      → ((connection daddr s tid sk).events
          ≡ s.events ++ (record { tag = tag_hostname; ip = 0; hostname = l.c } ∷ []))
        × (k.hostnames.lookup (connection daddr s tid sk).hostnames (daddr sk) ≡ none)
  unfolding report forget_socket
  connection_named daddr s tid sk l nz room e = rw (connection_lem daddr s tid sk nz room) (
      rw (e, report)
        (
          refl,
          k.hostnames.lookup-delete s.hostnames (daddr sk) (daddr sk)
              ∙ rw (eq_refl (daddr sk)) refl,
        ))

  connection_unnamed :
      (daddr : ℕ → ℕ) (s : Tracer k) (tid sk : ℕ)
      → (tid == 0) ≡ false
      → HasRoom k.sockets s.sockets tid
      → k.hostnames.lookup s.hostnames (daddr sk) ≡ none
      → (connection daddr s tid sk).events
        ≡ s.events ++ (record { tag = tag_ip; ip = daddr sk; hostname = [] } ∷ [])
  unfolding report forget_socket
  connection_unnamed daddr s tid sk nz room e =
      rw (connection_lem daddr s tid sk nz room) (rw (e, report) refl)

module _ (k : Kernel) where
  traced_resolve :
      (s : Tracer k) (tid : ℕ) (name : Bytes) (res : ℕ)
      → (tid == 0) ≡ false
      → getaddrinfo_enter k s tid name res ≡ record s {
        lookups = (k.lookups.update s.lookups tid (record { c = take 83 name; results = res })).1;
      }
  unfolding getaddrinfo_enter
  traced_resolve s tid name res nz = rw nz refl

  resolved_lem :
      (address : ℕ → ℕ) (s : Tracer k) (tid : ℕ) (l : Lookup)
      → (tid == 0) ≡ false
      → HasRoom k.hostnames s.hostnames (address l.results)
      → k.lookups.lookup s.lookups tid ≡ some l
      → let s' = getaddrinfo_exit k address s tid 0 in
        (k.hostnames.lookup s'.hostnames (address l.results) ≡ some l)
        × (s'.events ≡ s.events)
        × (s'.sockets ≡ s.sockets)
  unfolding getaddrinfo_exit forget_lookup
  resolved_lem address s tid l nz room found =
      rw (nz, found, getaddrinfo_exit)
        (lookup-update_self k.hostnames s.hostnames (address l.results) l room, refl, refl)

  -- A name that was resolved stands at its address, and nothing is reported yet.
  resolution_lem :
      (address : ℕ → ℕ) (s : Tracer k) (tid : ℕ) (name : Bytes) (res : ℕ)
      → (tid == 0) ≡ false
      → HasRoom k.lookups s.lookups tid
      → HasRoom k.hostnames s.hostnames (address res)
      → let s' = getaddrinfo_exit k address (getaddrinfo_enter k s tid name res) tid 0 in
        (k.hostnames.lookup s'.hostnames (address res)
          ≡ some (record { c = take 83 name; results = res }))
        × (s'.events ≡ s.events)
        × (s'.sockets ≡ s.sockets)
  resolution_lem address s tid name res nz room names =
      let l : Lookup = record { c = take 83 name; results = res } in
      rw (traced_resolve s tid name res nz) (
        resolved_lem address (record s { lookups = (k.lookups.update s.lookups tid l).1 }) tid l nz
          names (lookup-update_self k.lookups s.lookups tid l room))

-- The run of a traced thread that resolves a name, connects to the address, and connects again.
module _ (k : Kernel) (target : ℕ) (s : Tracer k) (id : ℕ) (name : Bytes) where
  abbrev pub resolve_and_connect : (address daddr : ℕ → ℕ) (res sk : ℕ) → Tracer k
  resolve_and_connect address daddr res sk =
      run k target s
        (resolve id name res ∷ resolved id address 0 ∷ connect id sk ∷ connected id daddr 0 ∷ [])

  -- If each map that is written has room for the entry when it is written, a traced thread that
  -- resolves a name and connects to its address is reported with the name, cut to 83 bytes; when it
  -- connects to the same address again, it is reported with the address, since the name is forgotten
  -- at the first connection.
  pub named_once :
      (address daddr : ℕ → ℕ) (res sk again : ℕ)
      → HasRoom k.lookups s.lookups (get_tid target id)
      → HasRoom k.hostnames s.hostnames (address res)
      → HasRoom k.sockets s.sockets (get_tid target id)
      → HasRoom k.sockets (resolve_and_connect address daddr res sk).sockets (get_tid target id)
      → (get_tid target id == 0) ≡ false
      → address res ≡ daddr sk
      → daddr again ≡ daddr sk
      → let first = resolve_and_connect address daddr res sk in
        let second = run k target first (connect id again ∷ connected id daddr 0 ∷ []) in
        (first.events
          ≡ s.events ++ (record { tag = tag_hostname; ip = 0; hostname = take 83 name } ∷ []))
        × (second.events
            ≡ first.events ++ (record { tag = tag_ip; ip = daddr sk; hostname = [] } ∷ []))
  unfolding run step
  named_once address daddr res sk again lr hr sr sr' nz same back =
      let tid = get_tid target id in
      let s' = getaddrinfo_exit k address (getaddrinfo_enter k s tid name res) tid 0 in
      let r = resolution_lem k address s tid name res nz lr hr in
      let l : Lookup = record { c = take 83 name; results = res } in
      let first =
        connection_named k daddr s' tid sk l nz (λ v. rw r.2 (sr v))
          (ap (k.hostnames.lookup s'.hostnames) (sym same) ∙ r.0) in
      let s'' = tcp_v4_connect_exit k daddr (tcp_v4_connect_enter k s' tid sk) tid 0 in
      let second =
        connection_unnamed k daddr s'' tid again nz sr'
          (ap (k.hostnames.lookup s''.hostnames) back ∙ first.1) in
      (first.0 ∙ rw r.1 refl, second ∙ rw back refl)
