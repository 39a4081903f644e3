-- ===== src/Loader/Config/Settings.antt =====
-- A configuration written out, one line for each setting.
use ebpf_nids.Prelude.{ℕ, ◌≤◌, ◌<◌, List, [], ◌∷◌, ◌++◌, arith, length, length-append}
use ebpf_nids.Prelude.Text.{Bytes, codes}
use ebpf_nids.Prelude.Decimal.{decimal, length-decimal}
use ebpf_nids.Loader.Text.{is_blank}
use ebpf_nids.Loader.Config.{AppConfig}
use ebpf_nids.Loader.Config.Values.{decimal-IsPlain}
use ebpf_nids.Loader.Config.Lines.{Avoids, IsPlain, Setting, ArePrintable}

-- The four modes and their names in the file.
pub data Mode : Type 0 where
  auto skb drv hw : Mode

abbrev pub mode_flags : Mode → ℕ
mode_flags auto = 1
mode_flags skb = 3
mode_flags drv = 5
mode_flags hw = 9

abbrev pub mode_name : Mode → Bytes
mode_name auto = codes "auto"
mode_name skb = codes "skb"
mode_name drv = codes "drv"
mode_name hw = codes "hw"

-- What a configuration that is written out satisfies, beside its bounds: its texts can be values.
pub record IsWritable (c : AppConfig) : Type 0 where
  pub ifname : IsPlain c.ifname
  pub ifname_fits : length c.ifname < 16
  pub socket_path : IsPlain c.socket_path
  pub socket_path_fits : length c.socket_path < 108
  pub log_file : IsPlain c.log_file
  pub log_file_fits : length c.log_file < 256
  pub interval_pos : 0 < c.stats_interval_sec
  pub interval_le : c.stats_interval_sec ≤ 3600
  pub daemon_flag : c.daemon_mode ≤ 1

-- The settings of a configuration, its flags being those of the mode.
unfoldable pub settings : AppConfig → Mode → List Setting
settings c m =
    record { key = codes "ifname"; value = c.ifname }
    ∷ record { key = codes "socket_path"; value = c.socket_path }
    ∷ record { key = codes "log_file"; value = c.log_file }
    ∷ record { key = codes "stats_interval_sec"; value = decimal c.stats_interval_sec }
    ∷ record { key = codes "daemon"; value = decimal c.daemon_mode }
    ∷ record { key = codes "xdp_mode"; value = mode_name m }
    ∷ []

mode_name-IsPlain : (m : Mode) → IsPlain (mode_name m)
unfolding Avoids is_blank
mode_name-IsPlain auto = ground arith
mode_name-IsPlain skb = ground arith
mode_name-IsPlain drv = ground arith
mode_name-IsPlain hw = ground arith

length-mode_name : (m : Mode) → length (mode_name m) ≤ 4
length-mode_name auto = omega arith
length-mode_name skb = omega arith
length-mode_name drv = omega arith
length-mode_name hw = omega arith

line_fits :
    (key value : Bytes)
    → length key ≤ 20
    → length value ≤ 300
    → length (key ++ (b'=' ∷ value)) < 511
line_fits key value k v = omega (arith, length-append key (b'=' ∷ value))

pub settings-ArePrintable : (c : AppConfig) (m : Mode) → IsWritable c → ArePrintable (settings c m)
unfolding settings Avoids is_blank
settings-ArePrintable c m w =
    let n = decimal c.stats_interval_sec in
    let d = decimal c.daemon_mode in
    (
      (ground arith, w.ifname, line_fits (codes "ifname") c.ifname (omega arith) (omega arith)),
      (
        (
          ground arith,
          w.socket_path,
          line_fits (codes "socket_path") c.socket_path (omega arith) (omega arith),
        ),
        (
          (
            ground arith,
            w.log_file,
            line_fits (codes "log_file") c.log_file (omega arith) (omega arith),
          ),
          (
            (
              ground arith,
              decimal-IsPlain c.stats_interval_sec,
              line_fits (codes "stats_interval_sec") n (omega arith)
                  (omega (arith, length-decimal c.stats_interval_sec)),
            ),
            (
              (
                ground arith,
                decimal-IsPlain c.daemon_mode,
                line_fits (codes "daemon") d (omega arith)
                    (omega (arith, length-decimal c.daemon_mode)),
              ),
              (
                (
                  ground arith,
                  mode_name-IsPlain m,
                  line_fits (codes "xdp_mode") (mode_name m) (omega arith)
                      (omega (arith, length-mode_name m)),
                ),
                tt,
              ),
            ),
          ),
        ),
      ),
    )
