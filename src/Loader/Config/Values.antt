-- ===== src/Loader/Config/Values.antt =====
-- Numbers as values in the configuration of project_submit/ebpf_control/src/loader.c.
use mathlib.Core.List.{reverse, reverse-append}
use ebpf_nids.Prelude.{ℕ, ◌<◌, [], ◌∷◌, ◌++◌, arith}
use ebpf_nids.Prelude.Text.{Bytes}
use ebpf_nids.Prelude.Decimal.{decimal, AreDigits, decimal-AreDigits}
use ebpf_nids.Loader.Text.{is_blank}
use ebpf_nids.Loader.Text.Trim.{StartsFull}
use ebpf_nids.Loader.Config.Lines.{Avoids, IsPlain}

AreDigits-append : (a b : Bytes) → AreDigits a → AreDigits b → AreDigits (a ++ b)
AreDigits-append [] b h k = k
AreDigits-append (c ∷ a) b h k = (h.0, h.1, AreDigits-append a b h.2 k)

AreDigits-reverse : (a : Bytes) → AreDigits a → AreDigits (reverse a)
AreDigits-reverse [] h = tt
AreDigits-reverse (c ∷ a) h =
    rw (reverse-append (c ∷ []) a)
      (AreDigits-append (reverse a) (c ∷ []) (AreDigits-reverse a h.2) (h.0, h.1, tt))

digits-Avoids : (b : ℕ) (s : Bytes) → b < 48 → AreDigits s → Avoids b s
unfolding Avoids
digits-Avoids b [] small h = tt
digits-Avoids b (c ∷ cs) small h = (ground (arith, h.0), digits-Avoids b cs small h.2)

digits-StartsFull : (s : Bytes) → AreDigits s → StartsFull s
unfolding is_blank
digits-StartsFull [] h = tt
digits-StartsFull (c ∷ cs) h = ground (arith, h.0)

-- A number can be a value.
pub decimal-IsPlain : (n : ℕ) → IsPlain (decimal n)
decimal-IsPlain n =
    let d = decimal-AreDigits n in
    record {
      no_nul = digits-Avoids 0 (decimal n) (omega arith) d;
      no_newline = digits-Avoids b'\n' (decimal n) (omega arith) d;
      no_hash = digits-Avoids b'#' (decimal n) (omega arith) d;
      starts = digits-StartsFull (decimal n) d;
      ends = digits-StartsFull (reverse (decimal n)) (AreDigits-reverse (decimal n) d);
    }
