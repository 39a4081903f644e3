-- ===== src/Xdp/Packet.antt =====
-- Reading a packet: the accesses that `xdp_firewall` of
-- project_submit/ebpf_control/src/xdp_blacklist.bpf.c makes through its header pointers, and the
-- header as it stands in the bytes.
use ebpf_nids.Prelude.{
  ℕ, zero, suc, ◌+◌, ◌*◌, ◌≤◌, ◌<◌, ◌≡◌, refl, Option, none, some, List, [], ◌∷◌, arith, length,
  get_or, ◌>>=◌,
}

-- The bytes from `data` to `data_end`.
abbrev pub Bytes : Type 0
Bytes = List ℕ

-- A load of one byte; `none` is an access past `data_end`.
unfoldable pub load : Bytes → ℕ → Option ℕ
load [] i = none
load (b ∷ bs) zero = some b
load (b ∷ bs) (suc i) = load bs i

-- A 16-bit field in network order, as `bpf_ntohs` gives it.
unfoldable pub load16 : Bytes → ℕ → Option ℕ
load16 pkt i = do hi ← load pkt i; lo ← load pkt (i + 1); some (hi * 256 + lo)

-- A 32-bit field as the program keeps an address: in memory order, on a little-endian machine.
unfoldable pub load32 : Bytes → ℕ → Option ℕ
load32 pkt i = do
  a ← load pkt i
  b ← load pkt (i + 1)
  c ← load pkt (i + 2)
  d ← load pkt (i + 3)
  some (a + b * 0x100 + c * 0x1_0000 + d * 0x100_0000)

-- The same fields, of bytes that are known to be there.
abbrev pub field16 : Bytes → ℕ → ℕ
field16 pkt i = get_or pkt i 0 * 256 + get_or pkt (i + 1) 0

abbrev pub field32 : Bytes → ℕ → ℕ
field32 pkt i =
    get_or pkt i 0
    + get_or pkt (i + 1) 0 * 0x100
    + get_or pkt (i + 2) 0 * 0x1_0000
    + get_or pkt (i + 3) 0 * 0x100_0000

pub load_within : (pkt : Bytes) (i : ℕ) → i < length pkt → load pkt i ≡ some (get_or pkt i 0)
unfolding load
load_within [] i h = absurd (omega arith)
load_within (b ∷ bs) zero h = refl
load_within (b ∷ bs) (suc i) h = load_within bs i (omega arith)

pub load16_within : (pkt : Bytes) (i : ℕ) → i + 2 ≤ length pkt → load16 pkt i ≡ some (field16 pkt i)
unfolding load16
load16_within pkt i h =
    rw (load_within pkt i (omega arith)) (rw (load_within pkt (i + 1) (omega arith)))

pub load32_within : (pkt : Bytes) (i : ℕ) → i + 4 ≤ length pkt → load32 pkt i ≡ some (field32 pkt i)
unfolding load32
load32_within pkt i h = rw (load_within pkt i (omega arith)) (
    rw (load_within pkt (i + 1) (omega arith))
      (rw (load_within pkt (i + 2) (omega arith)) (rw (load_within pkt (i + 3) (omega arith)))))
