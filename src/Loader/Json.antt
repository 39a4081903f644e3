-- ===== src/Loader/Json.antt =====
-- The JSON lines that project_submit/ebpf_control/src/loader.c sends to its clients: the format
-- strings of `handle_alert` and `report_flow_rate`, and `alert_type_to_string`.
pub mod Framing
use ebpf_nids.Prelude.{ℕ, ◌+◌, ◌/◌, ◌%◌, ◌^◌, List, [], ◌∷◌, ◌++◌, ◌==◌, if◌then◌else◌}
use ebpf_nids.Prelude.Text.{Bytes, codes}
use ebpf_nids.Prelude.Decimal.{decimal}
use ebpf_nids.Kernel.{AlertEvent}
use ebpf_nids.Loader.Text.{copy}

unfoldable pub alert_type_to_string : ℕ → Bytes
alert_type_to_string type =
    if type == 1
    then codes "syn_flood"
    else if type == 2
    then codes "port_scan"
    else codes "unknown"

-- `inet_ntop(AF_INET, ...)` of an address as it lies in memory on a little-endian machine.
unfoldable pub inet_ntop : ℕ → Bytes
inet_ntop ip =
    decimal (ip % 256)
    ++ (codes "."
        ++ (decimal (ip / 0x100 % 256)
            ++ (codes "."
                ++ (decimal (ip / 0x1_0000 % 256)
                    ++ (codes "." ++ decimal (ip / 0x100_0000 % 256))))))

-- What `report_flow_rate` reports.
pub record FlowRate : Type 0 where
  pub ip : ℕ
  pub pps : ℕ
  pub bps : ℕ
  pub total_pkts : ℕ
  pub total_bytes : ℕ
  pub timestamp : ℕ

-- `char json[512]`
abbrev pub json_size : ℕ
json_size = 512

-- The text that the format string of `handle_alert` gives, and what fits the buffer.
unfoldable pub alert_text : AlertEvent → Bytes
alert_text e =
    codes "{\"type\":\"alert\",\"src_ip\":\""
    ++ (inet_ntop e.src_ip
        ++ (codes "\",\"dst_ip\":\""
            ++ (inet_ntop e.dst_ip
                ++ (codes "\",\"alert_type\":"
                    ++ (decimal e.alert_type
                        ++ (codes ",\"alert_name\":\""
                            ++ (alert_type_to_string e.alert_type
                                ++ (codes "\",\"timestamp_ns\":"
                                    ++ (decimal e.timestamp ++ codes "}\n")))))))))

unfoldable pub alert_json : AlertEvent → Bytes
alert_json e = copy json_size (alert_text e)

-- The same for `report_flow_rate`.
unfoldable pub flow_text : FlowRate → Bytes
flow_text r =
    codes "{\"type\":\"flow_rate\",\"ip\":\""
    ++ (inet_ntop r.ip
        ++ (codes "\",\"pps\":"
            ++ (decimal r.pps
                ++ (codes ",\"bytes_per_sec\":"
                    ++ (decimal r.bps
                        ++ (codes ",\"total_pkts\":"
                            ++ (decimal r.total_pkts
                                ++ (codes ",\"total_bytes\":"
                                    ++ (decimal r.total_bytes
                                        ++ (codes ",\"timestamp\":"
                                            ++ (decimal r.timestamp ++ codes "}\n")))))))))))

unfoldable pub flow_json : FlowRate → Bytes
flow_json r = copy json_size (flow_text r)
