-- ===== src/Loader/Config/Printed.antt =====
-- A configuration written out is read back.
use ebpf_nids.Prelude.{
  ℕ, ◌≤◌, ◌<◌, ◌≡◌, refl, ap, ◌∙◌, none, some, List, [], ◌∷◌, arith, length, take_all,
  if◌then◌else◌,
}
use ebpf_nids.Prelude.Text.{Bytes, codes, str_eq}
use ebpf_nids.Prelude.Decimal.{decimal}
use ebpf_nids.Loader.Text.Numbers.{atoi-decimal}
use ebpf_nids.Loader.Config.{
  AppConfig, Loaded, contents, parse_xdp_mode, set_key, load_config_file, set_interval, is_zero,
  set_mode,
}
use ebpf_nids.Loader.Config.Lines.{Setting, print_settings, set_all, load_lines-print_settings}
use ebpf_nids.Loader.Config.Settings.{
  Mode, auto, skb, drv, hw, mode_flags, mode_name, IsWritable, settings, settings-ArePrintable,
}

parse_xdp_mode-mode_name : (m : Mode) → parse_xdp_mode (mode_name m) ≡ some (mode_flags m)
unfolding parse_xdp_mode str_eq
parse_xdp_mode-mode_name auto = refl
parse_xdp_mode-mode_name skb = refl
parse_xdp_mode-mode_name drv = refl
parse_xdp_mode-mode_name hw = refl

module _ (out : AppConfig) where
  set_ifname :
      (v : Bytes)
      → length v < 16
      → set_key out (codes "ifname") v ≡ (record out { ifname = v }, none)
  unfolding set_key str_eq
  set_ifname v h = ap (λ t. (record out { ifname = t }, none)) (take_all 15 v (omega arith))

  set_socket_path :
      (v : Bytes)
      → length v < 108
      → set_key out (codes "socket_path") v ≡ (record out { socket_path = v }, none)
  unfolding set_key str_eq
  set_socket_path v h =
      ap (λ t. (record out { socket_path = t }, none)) (take_all 107 v (omega arith))

  set_log_file :
      (v : Bytes)
      → length v < 256
      → set_key out (codes "log_file") v ≡ (record out { log_file = v }, none)
  unfolding set_key str_eq
  set_log_file v h = ap (λ t. (record out { log_file = t }, none)) (take_all 255 v (omega arith))

  set_stats_interval :
      (n : ℕ)
      → 0 < n
      → n ≤ 3600
      → set_key out (codes "stats_interval_sec") (decimal n)
        ≡ (record out { stats_interval_sec = n }, none)
  unfolding set_key str_eq
  set_stats_interval n h k = ap (set_interval out) (atoi-decimal n (omega arith)) ∙ ground arith

  set_daemon :
      (n : ℕ)
      → n ≤ 1
      → set_key out (codes "daemon") (decimal n) ≡ (record out { daemon_mode = n }, none)
  unfolding set_key str_eq
  set_daemon n h =
      ap (λ z. (record out { daemon_mode = if is_zero z then 0 else 1 }, none))
        (atoi-decimal n (omega arith))
      ∙ ground arith

  set_xdp_mode :
      (m : Mode)
      → set_key out (codes "xdp_mode") (mode_name m)
        ≡ (record out { xdp_flags = mode_flags m }, none)
  unfolding set_key str_eq
  set_xdp_mode m = ap (set_mode out) (parse_xdp_mode-mode_name m)

-- The configuration with the flags of the mode.
abbrev pub with_mode : AppConfig → Mode → AppConfig
with_mode c m = record c { xdp_flags = mode_flags m }

set_all-step :
    (out next : AppConfig) (p : Setting) (ps : List Setting)
    → set_key out p.key p.value ≡ (next, none)
    → set_all out (p ∷ ps) ≡ set_all next ps
unfolding set_all
set_all-step out next p ps e =
    ap (λ (t : Loaded). elim t.1 [ none ↦ set_all t.0 ps | some e ↦ (t.0, some e) ]) e

set_all-settings :
    (c out : AppConfig) (m : Mode)
    → IsWritable c
    → set_all out (settings c m) ≡ (with_mode c m, none)
unfolding set_all settings
set_all-settings c out m w =
    let o1 = record out { ifname = c.ifname } in
    let o2 = record o1 { socket_path = c.socket_path } in
    let o3 = record o2 { log_file = c.log_file } in
    let o4 = record o3 { stats_interval_sec = c.stats_interval_sec } in
    let o5 = record o4 { daemon_mode = c.daemon_mode } in
    let p2 : Setting = record { key = codes "socket_path"; value = c.socket_path } in
    let p3 : Setting = record { key = codes "log_file"; value = c.log_file } in
    let p4 : Setting = record {
      key = codes "stats_interval_sec";
      value = decimal c.stats_interval_sec;
    } in
    let p5 : Setting = record { key = codes "daemon"; value = decimal c.daemon_mode } in
    let p6 : Setting = record { key = codes "xdp_mode"; value = mode_name m } in
    set_all-step out o1 (record { key = codes "ifname"; value = c.ifname })
      (p2 ∷ p3 ∷ p4 ∷ p5 ∷ p6 ∷ []) (set_ifname out c.ifname w.ifname_fits)
    ∙ set_all-step o1 o2 p2 (p3 ∷ p4 ∷ p5 ∷ p6 ∷ [])
        (set_socket_path o1 c.socket_path w.socket_path_fits)
    ∙ set_all-step o2 o3 p3 (p4 ∷ p5 ∷ p6 ∷ []) (set_log_file o2 c.log_file w.log_file_fits)
    ∙ set_all-step o3 o4 p4 (p5 ∷ p6 ∷ [])
        (set_stats_interval o3 c.stats_interval_sec w.interval_pos w.interval_le)
    ∙ set_all-step o4 o5 p5 (p6 ∷ []) (set_daemon o4 c.daemon_mode w.daemon_flag)
    ∙ set_all-step o5 (with_mode c m) p6 [] (set_xdp_mode o5 m)

-- A configuration within its bounds whose texts can stand in the file, written out with one line for
-- each setting, is read back as it is, whatever the configuration before, and with no error.
pub load_config_file-settings :
    (c out : AppConfig) (m : Mode)
    → IsWritable c
    → load_config_file (contents (print_settings (settings c m))) out ≡ (with_mode c m, none)
unfolding load_config_file
load_config_file-settings c out m w =
    load_lines-print_settings (settings c m) out 0 (settings-ArePrintable c m w)
    ∙ set_all-settings c out m w
