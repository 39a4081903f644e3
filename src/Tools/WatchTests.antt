-- ===== src/Tools/WatchTests.antt =====
-- Runs of the socket filter and the task iterator, and their theorems at concrete inputs.
use mathlib.Core.List.{map}
use ebpf_nids.Prelude.{
  ℕ, zero, suc, ◌+◌, ◌<◌, ◌≡◌, refl, Bool, true, false, Option, some, List, [], ◌∷◌, ◌++◌, arith,
  replicate, get_or, take, ap, ◌∙◌, ltb, if◌then◌else◌,
}
use ebpf_nids.Prelude.Int.{pos, negsuc}
use ebpf_nids.Prelude.Text.{Bytes, codes}
use ebpf_nids.Prelude.Decimal.{decimal, digits_onto}
use ebpf_nids.Tools.Ledger.{skeleton, ring, socket, iter_link, iter_fd, Keeps, Leaves}
use ebpf_nids.Tools.Polling.{Round, polling_ends, poll_loop, is_negative, is_eintr}
use ebpf_nids.Tools.Sockfilter.{SoEvent, SkBuff, socket_handler}
use ebpf_nids.Tools.Sockfilter.Cli
use ebpf_nids.Tools.Sockfilter.Cli.{
  open_raw_sock, main_with, watch, cleanup, negated, ltoa, ntohl, handle_event,
}
use ebpf_nids.Tools.Sockfilter.Cli.Release.{sockets, main_with-Keeps}
use ebpf_nids.Tools.Sockfilter.Prints.{IsWatched, packet_line, watched_line}
use ebpf_nids.Tools.TaskIter.{
  TaskInfo, pre514, post514, Task, get_task_state, stack_len, get_tasks, iterate,
}
use ebpf_nids.Tools.TaskIter.Cli.{exit_status, again, finished, info}
use ebpf_nids.Tools.TaskIter.Listing.{
  Delivers, at_end, repeated, next_task, task_line, tasks_listed,
}
use ebpf_nids.Tools.TaskIter

-- A UDP packet from 10.0.0.2 port 80 to 10.0.0.9 port 99.
abbrev packet : Bytes
packet =
    replicate 12 0
    ++ (8 ∷ 0 ∷ 0x45 ∷ [])
    ++ (replicate 8 0 ++ (17 ∷ 0 ∷ 0 ∷ 10 ∷ 0 ∷ 0 ∷ 2 ∷ 10 ∷ 0 ∷ 0 ∷ 9 ∷ 0 ∷ 80 ∷ 0 ∷ 99 ∷ []))

abbrev drop : ℕ → Bytes → Bytes
drop zero bs = bs
drop (suc n) [] = []
drop (suc n) (b ∷ bs) = drop n bs

abbrev all_bytes : Bytes → Bool
all_bytes [] = true
all_bytes (b ∷ bs) = if ltb b 256 then all_bytes bs else false

get_or-byte : (bs : Bytes) (i : ℕ) → all_bytes bs ≡ true → get_or bs i 0 < 256
get_or-byte [] i e = omega arith
get_or-byte (b ∷ bs) zero e = ground (arith, e)
get_or-byte (b ∷ bs) (suc i) e = get_or-byte bs i (ground (arith, e))

get_or-drop : (bs : Bytes) (offset i : ℕ) → get_or (drop offset bs) i 0 ≡ get_or bs (offset + i) 0
get_or-drop bs zero i = ap (λ (n : ℕ). get_or bs n 0) (omega arith)
get_or-drop [] (suc offset) i = refl
get_or-drop (b ∷ bs) (suc offset) i =
    let same : suc (offset + i) ≡ suc offset + i = omega arith in
    get_or-drop bs offset i ∙ ap (λ (n : ℕ). get_or (b ∷ bs) n 0) same

get_or-take : (bs : Bytes) (len i : ℕ) → i < len → get_or (take len bs) i 0 ≡ get_or bs i 0
get_or-take bs zero i h = absurd (omega (arith, h))
get_or-take [] (suc len) i h = refl
get_or-take (b ∷ bs) (suc len) zero h = refl
get_or-take (b ∷ bs) (suc len) (suc i) h = get_or-take bs len i (omega (arith, h))

abbrev skb : SkBuff
skb = record {
  packet = packet;
  pkt_type = 0;
  ifindex = 2;
  len = 38;
  load_bytes = λ offset len. take len (drop offset packet);
  byte = λ i. get_or-byte packet i refl;
  load_lem =
      λ offset len i h k. get_or-take (drop offset packet) len i k ∙ get_or-drop packet offset i;
}

abbrev zero_sample : SoEvent
zero_sample = record {
  src_addr = 0;
  dst_addr = 0;
  ports = 0;
  ip_proto = 0;
  pkt_type = 0;
  ifindex = 0;
}

abbrev names : ℕ → Option Bytes
names ifindex = some (codes "eth0")

watched : IsWatched skb
watched = record {
  header = omega arith;
  whole = omega arith;
  ipv4 = refl;
  unfragmented = refl;
  not_gre = λ e. absurd (omega (arith, e));
  host = refl;
}

watched_line_example :
    (s : SoEvent) × (socket_handler skb (some zero_sample) [] ≡ (38, s ∷ []))
    × (handle_event 256 names s ≡ some (packet_line skb (codes "eth0")))
watched_line_example =
    watched_line skb zero_sample [] 256 names (codes "eth0") watched (omega arith) (omega arith)
      refl

source_line : ltoa (ntohl 0x0200_000a) ≡ codes "10.0.0.2"
unfolding ltoa ntohl decimal digits_onto
source_line = refl

abbrev answers : Cli.Answers
answers = record {
  open_and_load = true;
  ring_buffer_new = true;
  raw_socket = some 6;
  if_nametoindex = λ name. 2;
  binds = λ ifindex. true;
  setsockopt = true;
}

abbrev rounds : List Round
rounds = record { stopped = false; polled = pos 3 } ∷ record { stopped = true; polled = pos 0 } ∷ []

rounds_end : polling_ends rounds ≡ true
unfolding polling_ends is_negative
rounds_end = refl

-- A signal after a poll that handled three samples: the exit status is -3.
negative_status :
    main_with answers rounds (codes "lo")
    ≡ some (record {
      status = negsuc 2;
      acquired = skeleton ∷ ring ∷ socket 6 ∷ [];
      released = ring ∷ skeleton ∷ [];
    })
unfolding main_with watch open_raw_sock cleanup negated poll_loop is_negative is_eintr
negative_status = refl

main_with-Keeps_example :
    Leaves
      (Keeps (sockets (open_raw_sock answers (codes "lo")).sock))
      (main_with answers rounds (codes "lo"))
main_with-Keeps_example = main_with-Keeps answers rounds (codes "lo") refl refl rounds_end

-- The kernel's first task, and one whose stack cannot be had.
abbrev tasks : List Task
tasks =
    record {
      tgid = 1;
      pid = 1;
      state = post514 1;
      comm = codes "init";
      stack_res = pos 24;
      stack = 10 ∷ 11 ∷ 12 ∷ [];
    }
    ∷ record {
      tgid = 2;
      pid = 3;
      state = pre514 0x402;
      comm = codes "a_rather_long_name";
      stack_res = negsuc 13;
      stack = [];
    }
    ∷ []

abbrev empty_info : TaskInfo
empty_info = record { pid = 0; tid = 0; state = 0; comm = []; kstack_len = pos 0; kstack = [] }

abbrev written : List TaskInfo
written = iterate tasks (some empty_info) []

abbrev first : TaskInfo
first = record {
  pid = 1;
  tid = 1;
  state = 1;
  comm = codes "init";
  kstack_len = pos 3;
  kstack = 10 ∷ 11 ∷ 12 ∷ [];
}

abbrev second : TaskInfo
second = record {
  pid = 2;
  tid = 3;
  state = 0x402;
  comm = codes "a_rather_long_n";
  kstack_len = negsuc 13;
  kstack = [];
}

abbrev reading : TaskIter.Cli.Answers
reading = record {
  open_and_load = true;
  attach = λ pid_filter. 0;
  iter_create = pos 8;
  reads = info first ∷ again ∷ info second ∷ finished ∷ [];
  junk_err = negsuc 0;
  junk_fd = pos 0;
}

delivery : Delivers written reading.reads
unfolding iterate get_tasks stack_len get_task_state
delivery = next_task first (repeated (next_task second (at_end [])))

-- Without an argument `err` is never set, and the exit status is that of what it happens to hold.
tasks_listed_example :
    TaskIter.Cli.main_with reading (negsuc 0) (pos 0)
    ≡ some (
      record {
        status = exit_status (negsuc 0);
        acquired = skeleton ∷ iter_link ∷ iter_fd 8 ∷ [];
        released = iter_fd 8 ∷ iter_link ∷ skeleton ∷ [];
      },
      map task_line tasks,
    )
tasks_listed_example =
    tasks_listed reading tasks empty_info (negsuc 0) (pos 0) 8 refl refl refl delivery
