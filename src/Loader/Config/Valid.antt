-- ===== src/Loader/Config/Valid.antt =====
-- What every configuration that the loader runs with satisfies.
use ebpf_nids.Prelude.{
  ℕ, ◌+◌, ◌≤◌, ◌<◌, ◌≡◌, refl, ◌⊎◌, inl, inr, Option, none, some, List, [], ◌∷◌, arith, length,
  length-take, Option-cases, if_both,
}
use ebpf_nids.Prelude.Int.{ℤ, pos, negsuc}
use ebpf_nids.Prelude.Text.{Bytes, codes, str_eq, cstr, before}
use ebpf_nids.Loader.Text.{trim, fgets_lines, atoi}
use ebpf_nids.Loader.Config.{
  AppConfig, Loaded, File, contents, missing, refused, config_defaults, parse_xdp_mode,
  set_interval, set_mode, set_key, assign, load_key, load_line, load_lines, load_config_file,
  line_room, after_equals,
}

-- An XDP mode with XDP_FLAGS_UPDATE_IF_NOEXIST: auto, skb, drv or hw.
abbrev pub IsMode : ℕ → Type 0
IsMode f = (f ≡ 1) ⊎ (f ≡ 3) ⊎ (f ≡ 5) ⊎ (f ≡ 9)

pub record IsValid (c : AppConfig) : Type 0 where
  pub ifname_fits : length c.ifname < 16
  pub socket_path_fits : length c.socket_path < 108
  pub log_file_fits : length c.log_file < 256
  pub interval_pos : 0 < c.stats_interval_sec
  pub interval_le : c.stats_interval_sec ≤ 3600
  pub daemon_flag : c.daemon_mode ≤ 1
  pub mode : IsMode c.xdp_flags

pub config_defaults-IsValid : IsValid config_defaults
unfolding config_defaults
config_defaults-IsValid = ground arith

parse_xdp_mode-IsMode : (v : Bytes) (f : ℕ) → parse_xdp_mode v ≡ some f → IsMode f
unfolding parse_xdp_mode
parse_xdp_mode-IsMode v f h = ground arith

set_interval-IsValid : (out : AppConfig) (z : ℤ) → IsValid out → IsValid (set_interval out z).0
unfolding set_interval
set_interval-IsValid out (negsuc n) v = v
set_interval-IsValid out (pos n) v = ground arith

set_mode-IsValid :
    (out : AppConfig) (o : Option ℕ)
    → ((f : ℕ) → o ≡ some f → IsMode f)
    → IsValid out
    → IsValid (set_mode out o).0
unfolding set_mode
set_mode-IsValid out none m v = v
set_mode-IsValid out (some f) m v = ground (arith, m f refl)

abbrev KeepsValid : Loaded → Type 0
KeepsValid r = IsValid r.0

set_key-IsValid :
    (out : AppConfig) (key value : Bytes) → IsValid out → KeepsValid (set_key out key value)
unfolding set_key
set_key-IsValid out key value v =
    if_both KeepsValid (str_eq key (codes "ifname")) (ground (arith, length-take 15 value)) (
      if_both KeepsValid (str_eq key (codes "socket_path")) (ground (arith, length-take 107 value))
        (if_both KeepsValid (str_eq key (codes "log_file")) (ground (arith, length-take 255 value))
          (if_both KeepsValid (str_eq key (codes "stats_interval_sec"))
            (set_interval-IsValid out (atoi value) v)
            (if_both KeepsValid (str_eq key (codes "daemon")) (ground arith) (
              if_both KeepsValid (str_eq key (codes "xdp_mode"))
                (set_mode-IsValid out (parse_xdp_mode value) (parse_xdp_mode-IsMode value) v) v)))))

load_line-IsValid :
    (out : AppConfig) (n : ℕ) (line : Bytes) → IsValid out → KeepsValid (load_line out n line)
unfolding load_line
load_line-IsValid out n line v = key (trim (before b'#' (cstr line)))
  where
    value : (k : Bytes) (o : Option Bytes) → KeepsValid (assign out n k o)
    value k none = v
    value k (some t) = set_key-IsValid out (trim (before b'=' k)) (trim t) v

    key : (s : Bytes) → KeepsValid (load_key out n s)
    key [] = v
    key (c ∷ cs) = value (c ∷ cs) (after_equals (c ∷ cs))

load_lines-IsValid :
    (lines : List Bytes) (out : AppConfig) (n : ℕ)
    → IsValid out
    → KeepsValid (load_lines out n lines)
unfolding load_lines
load_lines-IsValid [] out n v = v
load_lines-IsValid (line ∷ lines) out n v =
    let w : IsValid (load_line out (n + 1) line).0 = load_line-IsValid out (n + 1) line v in
    elim (Option-cases (load_line out (n + 1) line).1) [
      | inl fine ↦
          rw (fine, load_lines) (load_lines-IsValid lines (load_line out (n + 1) line).0 (n + 1) w)
      | inr (e, wrong) ↦ rw (wrong, load_lines) w
    ]

-- Whatever the file holds, and also where it is refused half way, a valid configuration stays
-- valid: every string fits its buffer with its NUL, the interval lies between 1 and 3600, the
-- daemon flag is 0 or 1, and the flags are those of one XDP mode with UPDATE_IF_NOEXIST.
pub load_config_file-IsValid :
    (file : File) (out : AppConfig) → IsValid out → IsValid (load_config_file file out).0
unfolding load_config_file
load_config_file-IsValid (contents bytes) out v =
    load_lines-IsValid (fgets_lines line_room bytes) out 0 v
load_config_file-IsValid missing out v = v
load_config_file-IsValid refused out v = v
