-- ===== src/Kernel.antt =====
-- The BPF maps, the ring buffer and the value types of
-- project_submit/ebpf_control/src/xdp_blacklist.bpf.c. The maps themselves are kernel code: they are
-- interfaces here, with what the kernel documents of its helpers as laws, and every function of the
-- data plane takes them as arguments.
pub mod Tables
pub mod Tracking
use ebpf_nids.Prelude.{
  ℕ, ◌+◌, ◌%◌, ◌^◌, ◌≡◌, Bool, ◌&&◌, Option, some, List, [], ◌∷◌, ◌++◌, ◌==◌, if◌then◌else◌,
}

-- `struct flow_stats`
pub record FlowStats : Type 0 where
  pub pkt_count : ℕ
  pub byte_count : ℕ

-- `struct port_bitmap`: sixteen 64-bit words
abbrev pub PortBitmap : Type 0
PortBitmap = List ℕ

-- `struct alert_event`
pub record AlertEvent : Type 0 where
  pub src_ip : ℕ
  pub dst_ip : ℕ
  pub alert_type : ℕ
  pub timestamp : ℕ

abbrev pub syn_threshold : ℕ
syn_threshold = 100

abbrev pub port_scan_threshold : ℕ
port_scan_threshold = 20

-- `__u64` addition
abbrev pub add64 : ℕ → ℕ → ℕ
add64 a b = (a + b) % 2 ^ 64

-- BPF_MAP_TYPE_HASH with 32-bit keys. `lookup` is what `bpf_map_lookup_elem` points at, `store` a
-- write through such a pointer, and `update` is `bpf_map_update_elem` with BPF_ANY: its flag says
-- whether it succeeded, and a failed update (a full map) changes nothing.
pub record HashMap (V : Type 0) : Type 1 where
  pub State : Type 0
  pub lookup : State → ℕ → Option V
  pub store : State → ℕ → V → State
  pub update : State → ℕ → V → Bool × State
  pub lookup-store :
      (m : State) (k : ℕ) (w v : V) (j : ℕ)
      → lookup m k ≡ some w
      → lookup (store m k v) j ≡ (if k == j then some v else lookup m j)
  pub lookup-update :
      (m : State) (k : ℕ) (v : V) (j : ℕ)
      → lookup (update m k v).1 j ≡ (if (update m k v).0 && k == j then some v else lookup m j)

-- BPF_MAP_TYPE_PERCPU_HASH of `__u64`, at one CPU: the helpers that a program calls on a CPU read
-- and write that CPU's values only.
abbrev pub PerCpuHash : Type 1
PerCpuHash = HashMap ℕ

-- BPF_MAP_TYPE_RINGBUF: the events that wait for the consumer, oldest first. The flag of `output`
-- says whether there was room.
pub record RingBuffer : Type 1 where
  pub State : Type 0
  pub output : State → AlertEvent → Bool × State
  pub events : State → List AlertEvent
  pub events-output :
      (r : State) (e : AlertEvent)
      → events (output r e).1 ≡ (if (output r e).0 then events r ++ (e ∷ []) else events r)

-- The maps that the program declares.
pub record Kernel : Type 1 where
  pub blacklist : HashMap ℕ
  pub flow_stats : HashMap FlowStats
  pub syn_counter : PerCpuHash
  pub port_scan_map : HashMap PortBitmap
  pub alert_rb : RingBuffer

pub record Maps (k : Kernel) : Type 0 where
  pub blacklist : k.blacklist.State
  pub flow_stats : k.flow_stats.State
  pub syn_counter : k.syn_counter.State
  pub port_scan_map : k.port_scan_map.State
  pub alert_rb : k.alert_rb.State

-- Events handed to the ring buffer one after the other, whether or not it has room for each.
module _ (r : RingBuffer) where
  unfoldable pub submit : r.State → List AlertEvent → r.State
  submit q [] = q
  submit q (e ∷ es) = submit (r.output q e).1 es
