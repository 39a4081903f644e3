-- ===== src/Tools/Sockfilter/Cli.antt =====
-- examples/c/sockfilter.c: its option, the raw socket, what it prints of a sample, and `main`.
pub mod Release
use mathlib.Core.Option
use ebpf_nids.Prelude.{
  ℕ, zero, suc, ◌+◌, ◌-◌, ◌*◌, ◌/◌, ◌%◌, ◌^◌, Bool, true, false, not, ◌||◌, Option, none, some,
  List, [], ◌∷◌, ◌++◌, ltb, ◌==◌, if◌then◌else◌,
}
use ebpf_nids.Prelude.Int.{ℤ, pos, negsuc}
use ebpf_nids.Prelude.Text.{Bytes, codes}
use ebpf_nids.Prelude.Decimal.{decimal}
use ebpf_nids.Loader.Text.{copy}
use ebpf_nids.Tools.Ledger.{Resource, skeleton, ring, socket, Run}
use ebpf_nids.Tools.Polling.{Round, poll_loop}
use ebpf_nids.Tools.Sockfilter.{SoEvent}

-- What `argp_parse` calls `parse_arg` with: the option, an argument, and the keys that it does not
-- know, which `argp_parse` passes over.
pub data Key : Type 0 where
  interface : Bytes → Key
  argument : Bytes → Key
  other : Key

-- `parse_arg` on `env.interface`; `none` where `argp_usage` ends the program.
unfoldable pub parse_arg : Bytes → Key → Option Bytes
parse_arg env (interface arg) = some arg
parse_arg env (argument arg) = none
parse_arg env other = some env

unfoldable pub argp_parse : Bytes → List Key → Option Bytes
unfolding parse_arg
argp_parse env [] = some env
argp_parse env (k ∷ ks) = elim (parse_arg env k) [ none ↦ none | some e ↦ argp_parse e ks ]

-- The names at their places in `ipproto_mapping`; the other places hold NULL.
abbrev pub ipproto_names : List (ℕ × Bytes)
ipproto_names =
    (0, codes "IP")
    ∷ (1, codes "ICMP")
    ∷ (2, codes "IGMP")
    ∷ (4, codes "IPIP")
    ∷ (6, codes "TCP")
    ∷ (8, codes "EGP")
    ∷ (12, codes "PUP")
    ∷ (17, codes "UDP")
    ∷ (22, codes "IDP")
    ∷ (29, codes "TP")
    ∷ (33, codes "DCCP")
    ∷ (41, codes "IPV6")
    ∷ (46, codes "RSVP")
    ∷ (47, codes "GRE")
    ∷ (50, codes "ESP")
    ∷ (51, codes "AH")
    ∷ (92, codes "MTP")
    ∷ (94, codes "BEETPH")
    ∷ (98, codes "ENCAP")
    ∷ (103, codes "PIM")
    ∷ (108, codes "COMP")
    ∷ (132, codes "SCTP")
    ∷ (136, codes "UDPLITE")
    ∷ (137, codes "MPLS")
    ∷ (255, codes "RAW")
    ∷ []

abbrev pub name_at : List (ℕ × Bytes) → ℕ → Option Bytes
name_at [] p = none
name_at (r ∷ rs) p = if r.0 == p then some r.1 else name_at rs p

unfoldable pub ipproto_mapping : ℕ → Option Bytes
ipproto_mapping = name_at ipproto_names

-- `ntohl` and `ntohs` on a little-endian machine.
unfoldable pub ntohl : ℕ → ℕ
ntohl x =
    x % 256 * 0x100_0000
    + x / 0x100 % 256 * 0x1_0000
    + x / 0x1_0000 % 256 * 0x100
    + x / 0x100_0000 % 256

unfoldable pub ntohs : ℕ → ℕ
ntohs x = x % 256 * 256 + x / 256 % 256

-- `ltoa`: what stands in the buffer of 16 bytes.
unfoldable pub ltoa : ℕ → Bytes
ltoa addr = copy 16 (
    decimal (addr / 0x100_0000 % 256)
    ++ (codes "."
        ++ (decimal (addr / 0x1_0000 % 256)
            ++ (codes "."
                ++ (decimal (addr / 0x100 % 256) ++ (codes "." ++ decimal (addr % 256)))))))

-- The arguments of the format string. `none` is a NULL.
pub record Line : Type 0 where
  pub ifname : Bytes
  pub protocol : Option Bytes
  pub src : Bytes
  pub src_port : ℕ
  pub dst : Bytes
  pub dst_port : ℕ

-- `handle_event`, with the IPPROTO_MAX of the system's headers and its `if_indextoname`. The sign
-- of `ip_proto`, which is unsigned, needs no test.
unfoldable pub handle_event : ℕ → (ℕ → Option Bytes) → SoEvent → Option Line
unfolding ltoa ntohl ntohs ipproto_mapping
handle_event ipproto_max if_indextoname e =
    if not (e.pkt_type == 0)
    then none
    else if not (ltb e.ip_proto ipproto_max)
    then none
    else Option.map
        (λ ifname. record {
          ifname = ifname;
          protocol = ipproto_mapping e.ip_proto;
          src = ltoa (ntohl e.src_addr);
          src_port = ntohs (e.ports % 0x1_0000);
          dst = ltoa (ntohl e.dst_addr);
          dst_port = ntohs (e.ports / 0x1_0000 % 0x1_0000);
        })
        (if_indextoname e.ifindex)

-- What the system and the library answer: the descriptor of the raw socket, if there is one,
-- whether it can be bound to the interface with a number, and whether the other calls succeed.
pub record Answers : Type 0 where
  pub open_and_load : Bool
  pub ring_buffer_new : Bool
  pub raw_socket : Option ℕ
  pub if_nametoindex : Bytes → ℕ
  pub binds : ℕ → Bool
  pub setsockopt : Bool

-- `open_raw_sock`: the socket that it returns, and what it acquired and released.
pub record Opened : Type 0 where
  pub sock : Option ℕ
  pub acquired : List Resource
  pub released : List Resource

unfoldable pub open_raw_sock : Answers → Bytes → Opened
open_raw_sock w name = elim w.raw_socket [
  | none ↦ record { sock = none; acquired = []; released = [] }
  | some sock ↦
      if not (w.binds (w.if_nametoindex name))
      then record { sock = none; acquired = socket sock ∷ []; released = socket sock ∷ [] }
      else record { sock = some sock; acquired = socket sock ∷ []; released = [] }
]

-- `-err` as `int`
unfoldable pub negated : ℤ → ℤ
negated (pos zero) = pos 0
negated (pos (suc n)) = negsuc n
negated (negsuc n) = pos (n + 1)

-- The way to the label `cleanup` with a ring buffer, and what `open_raw_sock` has done.
unfoldable pub cleanup : Opened → ℤ → Run
unfolding negated
cleanup o err = record {
  status = negated err;
  acquired = skeleton ∷ ring ∷ o.acquired;
  released = o.released ++ (ring ∷ skeleton ∷ []);
}

-- `main` behind `open_raw_sock`; `none` while it polls. `setsockopt` has returned 0 where the
-- polling begins, and `err` is 0 as `argp_parse` left it.
unfoldable pub watch : Answers → List Round → Opened → Option Run
unfolding cleanup
watch w rounds o = elim o.sock [
  | none ↦ some (cleanup o (negsuc 1))
  | some sock ↦
      if not w.setsockopt
      then some (cleanup o (negsuc 2))
      else Option.map (cleanup o) (poll_loop (pos 0) rounds)
]

-- `main` behind its options.
unfoldable pub main_with : Answers → List Round → Bytes → Option Run
unfolding watch open_raw_sock
main_with w rounds env =
    if not w.open_and_load
    then some (record { status = pos 1; acquired = []; released = [] })
    else if not w.ring_buffer_new
    then some (record { status = pos 1; acquired = skeleton ∷ []; released = skeleton ∷ [] })
    else watch w rounds (open_raw_sock w env)

-- `main`. `argp_usage` ends it with status 64.
unfoldable pub main : Answers → List Round → List Key → Option Run
unfolding main_with argp_parse
main w rounds keys = elim (argp_parse (codes "lo") keys) [
  | none ↦ some (record { status = pos 64; acquired = []; released = [] })
  | some env ↦ main_with w rounds env
]
