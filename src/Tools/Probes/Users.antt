-- ===== src/Tools/Probes/Users.antt =====
-- The sample programs that print the arguments of user-space functions: examples/c/uprobe.bpf.c with
-- the functions that examples/c/uprobe.c calls, and examples/c/usdt.bpf.c; and the program of
-- examples/rust/xdp/src/bpf/xdppass.bpf.c, which prints a packet's size and passes it.
use ebpf_nids.Prelude.{
  ℕ, zero, suc, ◌+◌, ◌-◌, ◌*◌, ◌%◌, ◌^◌, ◌≤◌, ◌<◌, ◌≡◌, refl, List, [], ◌∷◌, ◌++◌, arith, ◌==◌, not,
  if◌then◌else◌, length,
}
use native.Mathlib.Nat.{mul-le-mul}
use ebpf_nids.Prelude.Int.{ℤ, pos, signed32}
use ebpf_nids.Xdp.Packet.{Bytes}
use ebpf_nids.Xdp.Firewall.{Action, pass}
use ebpf_nids.Tools.Probes.{pid_of}

pub data CallLine : Type 0 where
  add_entry sub_entry : ℤ → ℤ → CallLine
  add_exit sub_exit : ℤ → CallLine

-- The four programs of uprobe.bpf.c.
unfoldable pub uprobe_add : ℤ → ℤ → List CallLine
uprobe_add a b = add_entry a b ∷ []

unfoldable pub uretprobe_add : ℤ → List CallLine
uretprobe_add ret = add_exit ret ∷ []

unfoldable pub uprobe_sub : ℤ → ℤ → List CallLine
uprobe_sub a b = sub_entry a b ∷ []

unfoldable pub uretprobe_sub : ℤ → List CallLine
uretprobe_sub ret = sub_exit ret ∷ []

-- `int` operations on the bits: they wrap around, as the machine's do.
unfoldable pub uprobed_add : ℕ → ℕ → ℕ
uprobed_add a b = (a + b) % 2 ^ 32

unfoldable pub uprobed_sub : ℕ → ℕ → ℕ
uprobed_sub a b = (a + (2 ^ 32 - b)) % 2 ^ 32

-- What the programs print in the round `i` of the loop of uprobe.c.
unfoldable pub uprobe_round : ℕ → List CallLine
unfolding uprobe_add uretprobe_add uprobe_sub uretprobe_sub uprobed_add uprobed_sub
uprobe_round i =
    let next = (i + 1) % 2 ^ 32 in
    let square = i * i % 2 ^ 32 in
    uprobe_add (signed32 i) (signed32 next)
    ++ (uretprobe_add (signed32 (uprobed_add i next))
        ++ (uprobe_sub (signed32 square) (signed32 i)
            ++ uretprobe_sub (signed32 (uprobed_sub square i))))

signed32-pos : (w x : ℕ) → w ≡ x → x < 2 ^ 31 → signed32 w ≡ pos x
signed32-pos w x e h = rw e (ground (arith, h))

le-square : (i : ℕ) → i ≤ i * i
le-square zero = omega arith
le-square (suc i) = omega arith

-- The program prints true sums and differences through its first 46341 rounds.
pub uprobe_round_lem :
    (i : ℕ)
    → i ≤ 46340
    → uprobe_round i
      ≡ add_entry (pos i) (pos (i + 1))
        ∷ add_exit (pos (i + (i + 1)))
        ∷ sub_entry (pos (i * i)) (pos i)
        ∷ sub_exit (pos (i * i - i))
        ∷ []
unfolding uprobe_round uprobe_add uretprobe_add uprobe_sub uretprobe_sub uprobed_add uprobed_sub
uprobe_round_lem i le =
    let square : i * i ≤ 46340 * 46340 = mul-le-mul le le in
    let up = le-square i in
    rw
      (
        signed32-pos i i refl (omega (arith, le)),
        signed32-pos ((i + 1) % 2 ^ 32) (i + 1) (omega (arith, le)) (omega (arith, le)),
        signed32-pos ((i + (i + 1) % 2 ^ 32) % 2 ^ 32) (i + (i + 1)) (omega (arith, le))
            (omega (arith, le)),
        signed32-pos (i * i % 2 ^ 32) (i * i) (omega (arith, square)) (omega (arith, square)),
        signed32-pos ((i * i % 2 ^ 32 + (2 ^ 32 - i)) % 2 ^ 32) (i * i - i)
            (omega (arith, square, up, le)) (omega (arith, square)),
      )
      refl

-- The line of a call of `setjmp`: whether the probe attached by itself, and the arguments.
pub data SetjmpLine : Type 0 where
  auto_attach manual_attach : ℕ → ℤ → ℕ → SetjmpLine

unfoldable pub usdt_auto_attach : ℕ → ℕ → ℕ → ℤ → ℕ → List SetjmpLine
usdt_auto_attach my_pid pid_tgid arg1 arg2 arg3 =
    if not (pid_of pid_tgid == my_pid) then [] else auto_attach arg1 arg2 arg3 ∷ []

unfoldable pub usdt_manual_attach : ℕ → ℤ → ℕ → List SetjmpLine
usdt_manual_attach arg1 arg2 arg3 = manual_attach arg1 arg2 arg3 ∷ []

-- `xdp_pass`: its verdict, and the size that it prints.
unfoldable pub xdp_pass : Bytes → Action × ℕ
xdp_pass pkt = (pass, length pkt)
