-- ===== src/Tools/Tc.antt =====
-- examples/c/tc.bpf.c and examples/c/tc.c: a filter of traffic control that prints IPv4 packets, and
-- `main`, which keeps it attached until it is signalled.
pub mod Release
use ebpf_nids.Prelude.{
  ℕ, zero, suc, ◌+◌, Bool, true, false, not, ◌&&◌, Option, none, some, List, [], ◌∷◌, ◌++◌, ltb,
  ◌==◌, length, if◌then◌else◌, ◌>>=◌,
}
use ebpf_nids.Prelude.Int.{ℤ, pos, negsuc}
use ebpf_nids.Xdp.Packet.{Bytes, load, load16}
use ebpf_nids.Tools.Ledger.{Resource, skeleton, tc_hook, tc_filter, Run}

-- `tc_ingress`: what it returns, and the length and the time to live that it prints. `protocol` is
-- `ctx->protocol` in the order of the host; `none` is an access past the end.
unfoldable pub tc_ingress : ℕ → Bytes → Option (ℕ × List (ℕ × ℕ))
tc_ingress protocol pkt =
    if not (protocol == 0x0800)
    then some (0, [])
    else if ltb (length pkt) 14
    then some (0, [])
    else if ltb (length pkt) 34
    then some (0, [])
    else do tot_len ← load16 pkt 16; ttl ← load pkt 22; some (0, (tot_len, ttl) ∷ [])

-- What the library and the system answer. `signal` is 0 or the error number of the call.
pub record Answers : Type 0 where
  pub open_and_load : Bool
  pub hook_create : ℤ
  pub attach : ℤ
  pub signal : ℕ
  pub detach : ℤ

unfoldable pub is_zero : ℤ → Bool
is_zero (pos n) = n == 0
is_zero (negsuc n) = false

-- `-EEXIST`
unfoldable pub is_eexist : ℤ → Bool
is_eexist (pos n) = false
is_eexist (negsuc n) = n == 16

unfoldable pub negated : ℤ → ℤ
negated (pos zero) = pos 0
negated (pos (suc n)) = negsuc n
negated (negsuc n) = pos (n + 1)

abbrev pub hook_if : Bool → List Resource
hook_if created = if created then tc_hook ∷ [] else []

-- What a call of `bpf_tc_hook_create` with this answer acquires: the duty to call
-- `bpf_tc_hook_destroy`. (The source says of that call that it does not really remove the qdisc.)
abbrev pub hook_of : ℤ → List Resource
hook_of (pos zero) = tc_hook ∷ []
hook_of (pos (suc n)) = []
hook_of (negsuc n) = []

-- The way to the label `cleanup` behind a call of `bpf_tc_hook_create` with the answer `created`, with
-- the flag of the program, and the filters attached and detached on the way.
unfoldable pub cleanup : ℤ → Bool → List Resource → List Resource → ℤ → Run
unfolding negated
cleanup created hook_created attached detached err = record {
  status = negated err;
  acquired = skeleton ∷ (hook_of created ++ attached);
  released = detached ++ (hook_if hook_created ++ (skeleton ∷ []));
}

-- `main` behind the attachment. The wait for a signal is left out: a run ends by one.
unfoldable pub tc_attached : Answers → Bool → Run
unfolding is_zero cleanup
tc_attached w hook_created =
    if not (w.signal == 0)
    then cleanup w.hook_create hook_created (tc_filter ∷ []) [] (pos w.signal)
    else if not (is_zero w.detach)
    then cleanup w.hook_create hook_created (tc_filter ∷ []) [] w.detach
    else cleanup w.hook_create hook_created (tc_filter ∷ []) (tc_filter ∷ []) w.detach

unfoldable pub tc_main : Answers → Run
unfolding tc_attached is_zero is_eexist cleanup
tc_main w =
    let hook_created = is_zero w.hook_create in
    if not w.open_and_load
    then record { status = pos 1; acquired = []; released = [] }
    else if not (is_zero w.hook_create) && not (is_eexist w.hook_create)
    then cleanup w.hook_create hook_created [] [] w.hook_create
    else if not (is_zero w.attach)
    then cleanup w.hook_create hook_created [] [] w.attach
    else tc_attached w hook_created
