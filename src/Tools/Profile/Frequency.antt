-- ===== src/Tools/Profile/Frequency.antt =====
-- The sampling frequency of examples/c/profile.c.
use ebpf_nids.Prelude.{◌≤◌, ◌≡◌, true, some, List, [], ◌∷◌, arith}
use ebpf_nids.Prelude.Int.{ℤ, pos, negsuc}
use ebpf_nids.Loader.Text.{atoi}
use ebpf_nids.Tools.Profile.{Opt, frequency, help, Options, at_least_one, parse_options}

at_least_one_lem : (z : ℤ) → 1 ≤ at_least_one z
unfolding at_least_one
at_least_one_lem (pos n) = ground arith
at_least_one_lem (negsuc n) = omega arith

-- Whatever the options are, the sampling frequency that they leave is at least 1, if it was before.
pub parse_options-positive :
    (o : Options) (opts : List Opt) (o' : Options)
    → 1 ≤ o.freq
    → parse_options o opts ≡ some o'
    → 1 ≤ o'.freq
unfolding parse_options
parse_options-positive o [] o' h e = ground (arith, e)
parse_options-positive o (frequency arg ∷ opts) o' h e =
    parse_options-positive (record o { freq = at_least_one (atoi arg) }) opts o'
      (at_least_one_lem (atoi arg)) e
parse_options-positive o (Opt.sw_event ∷ opts) o' h e =
    parse_options-positive (record o { sw_event = true }) opts o' h e
parse_options-positive o (help ∷ opts) o' h e = absurd (ground arith)
