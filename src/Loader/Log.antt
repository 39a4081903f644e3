-- ===== src/Loader/Log.antt =====
-- `app_log` of project_submit/ebpf_control/src/loader.c: where a message goes.
use ebpf_nids.Prelude.{
  ℕ, ◌+◌, ◌≡◌, List, [], ◌∷◌, ◌++◌, arith, ◌==◌, if◌then◌else◌, Bool-cases, inl, inr,
}
use ebpf_nids.Prelude.Text.{Bytes, codes, str_eq}
use ebpf_nids.Loader.Text.{copy}
use ebpf_nids.Loader.System.{State}
use ebpf_nids.Loader.System.Ledger.{log, holds}

-- The priorities of syslog that the code uses.
pub data Priority : Type 0 where
  log_err log_info : Priority

-- A line that is written: to the log file, to the terminal, or to syslog.
pub data Output : Type 0 where
  to_file to_stdout : Bytes → Output
  to_syslog : Priority → Bytes → Output

-- `char msg[2048]`
abbrev pub msg_size : ℕ
msg_size = 2048

-- "[%s] %s"
unfoldable pub tagged : Bytes → Bytes → Bytes
tagged level msg = codes "[" ++ (level ++ (codes "] " ++ msg))

unfoldable pub priority_of : Bytes → Priority
priority_of level = if str_eq level (codes "ERROR") then log_err else log_info

-- `app_log`, by the level and the text that the format gives.
unfoldable pub app_log : State → Bytes → Bytes → List Output
unfolding tagged priority_of
app_log s level text =
    let line = tagged level (copy msg_size text) in
    (if s.log_fp then to_file (line ++ codes "\n") ∷ [] else [])
    ++ ((if s.cfg.daemon_mode == 0 then to_stdout (line ++ codes "\n") ∷ [] else [])
        ++ (to_syslog (priority_of level) line ∷ []))

-- The lines of the log file among what is written.
unfoldable pub file_lines : List Output → ℕ
file_lines [] = 0
file_lines (to_file line ∷ os) = 1 + file_lines os
file_lines (to_stdout line ∷ os) = file_lines os
file_lines (to_syslog p line ∷ os) = file_lines os

-- A message is a line of the log file exactly while the process holds that file open.
pub file_lines-app_log :
    (s : State) (level text : Bytes) → file_lines (app_log s level text) ≡ holds log s
unfolding file_lines app_log holds
file_lines-app_log s level text = elim (Bool-cases s.log_fp) [
  | inl e ↦ rw e (ground arith)
  | inr e ↦ rw e (ground arith)
]
