-- ===== src/Loader/Json/Framing.antt =====
-- Each message is one line, and fits its buffer.
use ebpf_nids.Prelude.{
  ℕ, ◌≤◌, ◌≡◌, ◌≢◌, [], ◌∷◌, ◌++◌, arith, length, length-append, take, take_all, ◌==◌, if_both,
}
use ebpf_nids.Prelude.Text.{Bytes, codes}
use ebpf_nids.Prelude.Decimal.{decimal, length-decimal, AreDigits, decimal-AreDigits}
use ebpf_nids.Kernel.{AlertEvent}
use ebpf_nids.Loader.Json.{
  FlowRate, alert_type_to_string, inet_ntop, alert_text, alert_json, flow_text, flow_json,
}

-- One line: no newline but the last byte.
abbrev pub IsLine : Bytes → Type 0
IsLine [] = ⊥
IsLine (c ∷ []) = c ≡ b'\n'
IsLine (c ∷ d ∷ cs) = (c ≢ b'\n') × IsLine (d ∷ cs)

abbrev pub NoNewline : Bytes → Type 0
NoNewline [] = Unit {0}
NoNewline (c ∷ cs) = (c ≢ b'\n') × NoNewline cs

NoNewline-append : (a b : Bytes) → NoNewline a → NoNewline b → NoNewline (a ++ b)
NoNewline-append [] b h k = k
NoNewline-append (c ∷ a) b h k = (h.0, NoNewline-append a b h.1 k)

IsLine-append : (a b : Bytes) → NoNewline a → IsLine b → IsLine (a ++ b)
IsLine-append [] b h k = k
IsLine-append (c ∷ []) [] h k = absurd k
IsLine-append (c ∷ []) (d ∷ b) h k = (h.0, k)
IsLine-append (c ∷ d ∷ a) b h k = (h.0, IsLine-append (d ∷ a) b h.1 k)

NoNewline-of_digits : (s : Bytes) → AreDigits s → NoNewline s
NoNewline-of_digits [] h = tt
NoNewline-of_digits (c ∷ cs) h = (omega arith, NoNewline-of_digits cs h.2)

NoNewline-decimal : (n : ℕ) → NoNewline (decimal n)
NoNewline-decimal n = NoNewline-of_digits (decimal n) (decimal-AreDigits n)

NoNewline-alert_type_to_string : (t : ℕ) → NoNewline (alert_type_to_string t)
unfolding alert_type_to_string
NoNewline-alert_type_to_string t =
    if_both NoNewline (t == 1) (omega arith)
      (if_both NoNewline (t == 2) (omega arith) (omega arith))

decimal_then : (n : ℕ) (b : Bytes) → NoNewline b → NoNewline (decimal n ++ b)
decimal_then n b h = NoNewline-append (decimal n) b (NoNewline-decimal n) h

NoNewline-inet_ntop : (ip : ℕ) → NoNewline (inet_ntop ip)
unfolding inet_ntop
NoNewline-inet_ntop ip = decimal_then _ _ (
    NoNewline-append (codes ".") _ (omega arith) (
      decimal_then _ _ (
        NoNewline-append (codes ".") _ (omega arith)
          (decimal_then _ _ (NoNewline-append (codes ".") _ (omega arith) (NoNewline-decimal _))))))

length-inet_ntop : (ip : ℕ) → length (inet_ntop ip) ≤ 83
unfolding inet_ntop
length-inet_ntop ip = omega (arith, length-append {0}, length-decimal)

length-alert_type_to_string : (t : ℕ) → length (alert_type_to_string t) ≤ 9
unfolding alert_type_to_string
length-alert_type_to_string t = ground arith

length-alert_text : (e : AlertEvent) → length (alert_text e) ≤ 511
unfolding alert_text
length-alert_text e =
    omega (arith, length-append {0}, length-decimal, length-inet_ntop, length-alert_type_to_string)

length-flow_text : (r : FlowRate) → length (flow_text r) ≤ 511
unfolding flow_text
length-flow_text r = omega (arith, length-append {0}, length-decimal, length-inet_ntop)

IsLine-decimal : (n : ℕ) (b : Bytes) → IsLine b → IsLine (decimal n ++ b)
IsLine-decimal n b h = IsLine-append (decimal n) b (NoNewline-decimal n) h

IsLine-inet_ntop : (ip : ℕ) (b : Bytes) → IsLine b → IsLine (inet_ntop ip ++ b)
IsLine-inet_ntop ip b h = IsLine-append (inet_ntop ip) b (NoNewline-inet_ntop ip) h

IsLine-alert_text : (e : AlertEvent) → IsLine (alert_text e)
unfolding alert_text
IsLine-alert_text e = IsLine-append (codes "{\"type\":\"alert\",\"src_ip\":\"") _ (omega arith) (
    IsLine-inet_ntop e.src_ip _ (
      IsLine-append (codes "\",\"dst_ip\":\"") _ (omega arith) (
        IsLine-inet_ntop e.dst_ip _ (
          IsLine-append (codes "\",\"alert_type\":") _ (omega arith) (
            IsLine-decimal e.alert_type _ (
              IsLine-append (codes ",\"alert_name\":\"") _ (omega arith) (
                IsLine-append (alert_type_to_string e.alert_type) _
                  (NoNewline-alert_type_to_string e.alert_type)
                  (IsLine-append (codes "\",\"timestamp_ns\":") _ (omega arith)
                    (IsLine-decimal e.timestamp (codes "}\n") (omega arith))))))))))

IsLine-flow_text : (r : FlowRate) → IsLine (flow_text r)
unfolding flow_text
IsLine-flow_text r = IsLine-append (codes "{\"type\":\"flow_rate\",\"ip\":\"") _ (omega arith) (
    IsLine-inet_ntop r.ip _ (
      IsLine-append (codes "\",\"pps\":") _ (omega arith) (
        IsLine-decimal r.pps _ (
          IsLine-append (codes ",\"bytes_per_sec\":") _ (omega arith) (
            IsLine-decimal r.bps _ (
              IsLine-append (codes ",\"total_pkts\":") _ (omega arith) (
                IsLine-decimal r.total_pkts _ (
                  IsLine-append (codes ",\"total_bytes\":") _ (omega arith) (
                    IsLine-decimal r.total_bytes _ (
                      IsLine-append (codes ",\"timestamp\":") _ (omega arith)
                        (IsLine-decimal r.timestamp (codes "}\n") (omega arith))))))))))))

-- The message of an alert is never cut off by its 512-byte buffer, and it is one line: it ends with
-- a newline and has no other.
pub alert_json-IsLine : (e : AlertEvent) → (alert_json e ≡ alert_text e) × IsLine (alert_json e)
unfolding alert_json
alert_json-IsLine e =
    let whole : take 511 (alert_text e) ≡ alert_text e =
      take_all 511 (alert_text e) (length-alert_text e) in
    (whole, rw whole (IsLine-alert_text e))

-- The message of a flow rate is never cut off by its 512-byte buffer, and it is one line: it
-- ends with a newline and has no other.
pub flow_json-IsLine : (r : FlowRate) → (flow_json r ≡ flow_text r) × IsLine (flow_json r)
unfolding flow_json
flow_json-IsLine r =
    let whole : take 511 (flow_text r) ≡ flow_text r =
      take_all 511 (flow_text r) (length-flow_text r) in
    (whole, rw whole (IsLine-flow_text r))
