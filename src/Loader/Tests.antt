-- ===== src/Loader/Tests.antt =====
-- Runs of the control plane, and its theorems at concrete inputs.
use ebpf_nids.Prelude.{
  ℕ, ◌-◌, ◌≡◌, refl, true, Option, some, none, List, [], ◌∷◌, arith, ◌==◌, if◌then◌else◌,
}
use ebpf_nids.Prelude.Text.{codes, str_eq, cstr, before}
use ebpf_nids.Loader.Text.{trim, trim_tail, skip_blanks, strip_end, is_blank, fgets_from, atoi}
use ebpf_nids.Loader.Config.{
  File, contents, config_defaults, load_config_file, load_lines, load_line, set_key, parse_xdp_mode,
  after_equals,
}
use ebpf_nids.Loader.Config.Valid.{load_config_file-IsValid, IsValid, config_defaults-IsValid}
use ebpf_nids.Loader.Config.Reload.{reload_config_runtime, ReloadSpec, reload-ReloadSpec}
use mathlib.Core.List.{foldl}
use ebpf_nids.Kernel.{AlertEvent}
use ebpf_nids.Loader.Clients.{
  Slots, client, again, Sent, took, broken, accept_clients, broadcast_json_line,
}
use ebpf_nids.Loader.Clients.Conserve.{Conserves, accept_clients-Conserves}
use ebpf_nids.Loader.Clients.Delivery.{Delivers, broadcast-Delivers}
use ebpf_nids.Loader.Json.{alert_json, alert_text}
use ebpf_nids.Loader.Json.Framing.{IsLine, alert_json-IsLine}
use ebpf_nids.Loader.Rates.{IpCache, find_cache, period}
use ebpf_nids.Loader.Rates.Account.{
  Reading, Accounts, sum_pps, sum_bps, last_pkts, last_bytes, run_reports, reports_account,
}
use ebpf_nids.Loader.Stats.{Reporter, World, MapView, report_key, read_and_report_stats}
use ebpf_nids.Loader.Stats.Visits.{read_and_report_stats_lem}

abbrev pub file : File
file =
    contents
      (codes "# demo\nifname = eth0 # nic\n\n\txdp_mode=drv\r\nstats_interval_sec= 30\ndaemon=1")

file_loads : load_config_file file config_defaults ≡ (
  record config_defaults {
    ifname = codes "eth0";
    stats_interval_sec = 30;
    daemon_mode = 1;
    xdp_flags = 5;
  },
  none,
)
unfolding load_config_file load_lines load_line set_key parse_xdp_mode after_equals str_eq cstr
    before fgets_from trim trim_tail skip_blanks strip_end is_blank atoi config_defaults
file_loads = refl

load_config_file-IsValid_example : IsValid (load_config_file file config_defaults).0
load_config_file-IsValid_example =
    load_config_file-IsValid file config_defaults config_defaults-IsValid

reload-ReloadSpec_example :
    ReloadSpec config_defaults
      (load_config_file file config_defaults)
      (reload_config_runtime config_defaults file)
    × IsValid (reload_config_runtime config_defaults file).cfg
reload-ReloadSpec_example = reload-ReloadSpec config_defaults file config_defaults-IsValid

abbrev slots : Slots
slots = some 7 ∷ none ∷ []

accept_clients-Conserves_example :
    Conserves slots
      (client 8 ∷ client 9 ∷ again ∷ [])
      (accept_clients slots (client 8 ∷ client 9 ∷ again ∷ []))
accept_clients-Conserves_example = accept_clients-Conserves slots (client 8 ∷ client 9 ∷ again ∷ [])

abbrev send : ℕ → Sent
send fd = if fd == 7 then broken else took 2

broadcast-Delivers_example :
    Delivers send
      (codes "ab\n")
      (some 7 ∷ some 8 ∷ [])
      (broadcast_json_line send (codes "ab\n") (some 7 ∷ some 8 ∷ []))
broadcast-Delivers_example = broadcast-Delivers send (codes "ab\n") (some 7 ∷ some 8 ∷ [])

abbrev entry : IpCache
entry = record { ip = 5; pkts = 10; bytes = 1000 }

abbrev readings : List Reading
readings =
    record { now = 100; stats = record { pkt_count = 33; byte_count = 4000 } }
    ∷ record { now = 105; stats = record { pkt_count = 40; byte_count = 5000 } }
    ∷ []

reports_account_example :
    Accounts
      (period 5)
      2
      (sum_pps (run_reports 5 (entry ∷ []) 5 readings))
      (last_pkts 10 readings - 10)
    × Accounts
        (period 5)
        2
        (sum_bps (run_reports 5 (entry ∷ []) 5 readings))
        (last_bytes 1000 readings - 1000)
reports_account_example =
    reports_account 5 (entry ∷ []) 5 entry readings (unfold find_cache in refl) (omega arith)

abbrev pub world : World
world = record { alloc = λ ip. true; time = λ ip. 100; net = λ n. send }

abbrev next_key : Option ℕ → Option ℕ
next_key none = some 5
next_key (some k) = if k == 5 then some 6 else none

abbrev pub view : MapView
view = record { next_key = next_key; value = λ k. some (record { pkt_count = k; byte_count = 60 }) }

abbrev idle : Reporter
idle = record {
  cache = [];
  publisher = record { slots = slots; closed = []; streams = []; broadcasts = 0 };
}

read_and_report_stats_lem_example :
    read_and_report_stats 2 world 5 view idle
    ≡ some (foldl (report_key world 5 view) idle (5 ∷ 6 ∷ []))
read_and_report_stats_lem_example =
    read_and_report_stats_lem world 5 view (5 ∷ 6 ∷ []) 2 idle (refl, (refl, refl)) (omega arith)

abbrev pub alert : AlertEvent
alert = record { src_ip = 0x0100_000a; dst_ip = 2; alert_type = 1; timestamp = 77 }

alert_json-IsLine_example : (alert_json alert ≡ alert_text alert) × IsLine (alert_json alert)
alert_json-IsLine_example = alert_json-IsLine alert
