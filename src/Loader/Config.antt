-- ===== src/Loader/Config.antt =====
-- The configuration of project_submit/ebpf_control/src/loader.c: `struct app_config`,
-- `config_defaults`, `parse_xdp_mode`, `load_config_file` and `reload_config_runtime`.
pub mod Valid
pub mod Reload
pub mod Lines
pub mod Values
pub mod Settings
pub mod Printed
use Prim.Native.Nat.{bit_or}
use ebpf_nids.Prelude.{
  ℕ, suc, ◌+◌, ◌-◌, ◌^◌, Bool, true, false, not, ◌||◌, Option, none, some, List, [], ◌∷◌, ltb, ◌==◌,
  if◌then◌else◌,
}
use ebpf_nids.Prelude.Int.{ℤ, pos, negsuc}
use ebpf_nids.Prelude.Text.{Bytes, codes, str_eq, cstr, before}
use ebpf_nids.Loader.Text.{trim, copy, fgets_lines, atoi}

-- `struct app_config`
pub record AppConfig : Type 0 where
  pub ifname : Bytes
  pub socket_path : Bytes
  pub log_file : Bytes
  pub stats_interval_sec : ℕ
  pub daemon_mode : ℕ
  pub xdp_flags : ℕ

-- The sizes of the three buffers: IF_NAMESIZE, `sun_path` of `struct sockaddr_un`, and 256.
abbrev pub ifname_size : ℕ
ifname_size = 16

abbrev pub socket_path_size : ℕ
socket_path_size = 108

abbrev pub log_file_size : ℕ
log_file_size = 256

-- XDP_FLAGS_* of <linux/if_link.h>.
abbrev pub update_if_noexist : ℕ
update_if_noexist = 2 ^ 0

abbrev pub skb_mode : ℕ
skb_mode = 2 ^ 1

abbrev pub drv_mode : ℕ
drv_mode = 2 ^ 2

abbrev pub hw_mode : ℕ
hw_mode = 2 ^ 3

unfoldable pub config_defaults : AppConfig
config_defaults = record {
  ifname = copy ifname_size (codes "lo");
  socket_path = copy socket_path_size (codes "/tmp/xdp_loader.sock");
  log_file = copy log_file_size (codes "/tmp/xdp_loader.log");
  stats_interval_sec = 5;
  daemon_mode = 0;
  xdp_flags = bit_or update_if_noexist skb_mode;
}

-- The new flags; `none` is -1, with `*flags` as it was.
unfoldable pub parse_xdp_mode : Bytes → Option ℕ
parse_xdp_mode value =
    if str_eq value (codes "skb") || str_eq value (codes "generic")
    then some (bit_or update_if_noexist skb_mode)
    else if str_eq value (codes "drv") || str_eq value (codes "native")
    then some (bit_or update_if_noexist drv_mode)
    else if str_eq value (codes "hw")
    then some (bit_or update_if_noexist hw_mode)
    else if str_eq value (codes "auto")
    then some update_if_noexist
    else none

-- Why a file is refused; a line without `=` is named by its number.
pub data ConfigError : Type 0 where
  cannot_open bad_interval bad_mode unknown_key : ConfigError
  no_equals : ℕ → ConfigError

-- `*out` after a call, and the error if the call returns -1.
abbrev pub Loaded : Type 0
Loaded = AppConfig × Option ConfigError

set_interval : AppConfig → ℤ → Loaded
set_interval out (negsuc n) = (out, some bad_interval)
set_interval out (pos n) =
    if n == 0 || ltb 3600 n
    then (out, some bad_interval)
    else (record out { stats_interval_sec = n }, none)

is_zero : ℤ → Bool
is_zero (pos n) = n == 0
is_zero (negsuc n) = false

set_mode : AppConfig → Option ℕ → Loaded
set_mode out none = (out, some bad_mode)
set_mode out (some flags) = (record out { xdp_flags = flags }, none)

-- One `key=value`.
unfoldable pub set_key : AppConfig → Bytes → Bytes → Loaded
unfolding set_interval is_zero set_mode
set_key out key value =
    if str_eq key (codes "ifname")
    then (record out { ifname = copy ifname_size value }, none)
    else if str_eq key (codes "socket_path")
    then (record out { socket_path = copy socket_path_size value }, none)
    else if str_eq key (codes "log_file")
    then (record out { log_file = copy log_file_size value }, none)
    else if str_eq key (codes "stats_interval_sec")
    then set_interval out (atoi value)
    else if str_eq key (codes "daemon")
    then (record out { daemon_mode = if is_zero (atoi value) then 0 else 1 }, none)
    else if str_eq key (codes "xdp_mode")
    then set_mode out (parse_xdp_mode value)
    else (out, some unknown_key)

-- What stands behind the first `=`, if there is one.
unfoldable pub after_equals : Bytes → Option Bytes
after_equals [] = none
after_equals (c ∷ cs) = if c == b'=' then some cs else after_equals cs

assign : AppConfig → ℕ → Bytes → Option Bytes → Loaded
assign out line_no key none = (out, some (no_equals line_no))
assign out line_no key (some value) = set_key out (trim (before b'=' key)) (trim value)

-- The body of the loop, on the line with its comment cut off and its ends trimmed.
load_key : AppConfig → ℕ → Bytes → Loaded
load_key out line_no [] = (out, none)
load_key out line_no (c ∷ cs) = assign out line_no (c ∷ cs) (after_equals (c ∷ cs))

unfoldable pub load_line : AppConfig → ℕ → Bytes → Loaded
unfolding load_key assign
load_line out line_no line = load_key out line_no (trim (before b'#' (cstr line)))

-- The loop; an error ends it.
unfoldable pub load_lines : AppConfig → ℕ → List Bytes → Loaded
load_lines out line_no [] = (out, none)
load_lines out line_no (line ∷ lines) =
    let r = load_line out (line_no + 1) line in
    let rest = load_lines r.0 (line_no + 1) lines in
    elim r.1 [ none ↦ rest | some e ↦ (r.0, some e) ]

-- What `fopen` of the path gives: the bytes of the file, ENOENT, or another error.
pub data File : Type 0 where
  contents : Bytes → File
  missing refused : File

-- `char line[512]`
abbrev pub line_room : ℕ
line_room = 511

unfoldable pub load_config_file : File → AppConfig → Loaded
load_config_file (contents bytes) out = load_lines out 0 (fgets_lines line_room bytes)
load_config_file missing out = (out, none)
load_config_file refused out = (out, some cannot_open)
