-- ===== src/Loader/Config/Reload.antt =====
-- `reload_config_runtime` of project_submit/ebpf_control/src/loader.c.
use ebpf_nids.Prelude.{
  ◌<◌, ◌≡◌, ◌≢◌, refl, ap, sym, ◌∙◌, if_both, Bool-cases, ◌↔◌, Bool, true, false, not, ◌||◌, Option,
  none, some, arith, ◌==◌, length, take_all, if◌then◌else◌, inl, inr,
}
use ebpf_nids.Prelude.Text.{str_eq, str_eq_iff}
use ebpf_nids.Loader.Text.{copy}
use ebpf_nids.Loader.Config.{
  AppConfig, ConfigError, Loaded, File, load_config_file, ifname_size, socket_path_size,
  log_file_size,
}
use ebpf_nids.Loader.Config.Valid.{IsValid, load_config_file-IsValid}

-- The configuration after a call, whether `open_log_file` was called, and the error of a call that
-- returns -1.
pub record Reloaded : Type 0 where
  pub cfg : AppConfig
  pub reopen_log : Bool
  pub error : Option ConfigError

-- `new_cfg` with what cannot change while the program runs put back.
pinned_mode : AppConfig → AppConfig → AppConfig
pinned_mode cfg new_cfg =
    if not (str_eq new_cfg.ifname cfg.ifname) || not (new_cfg.xdp_flags == cfg.xdp_flags)
    then record new_cfg { ifname = copy ifname_size cfg.ifname; xdp_flags = cfg.xdp_flags }
    else new_cfg

pin : AppConfig → AppConfig → AppConfig
unfolding pinned_mode
pin cfg new_cfg =
    let pinned = pinned_mode cfg new_cfg in
    if not (str_eq pinned.socket_path cfg.socket_path)
    then record pinned { socket_path = copy socket_path_size cfg.socket_path }
    else pinned

apply_reload : AppConfig → AppConfig → Reloaded
apply_reload cfg new_cfg =
    let kept = record cfg {
      stats_interval_sec = new_cfg.stats_interval_sec;
      daemon_mode = new_cfg.daemon_mode;
    } in
    if not (str_eq new_cfg.log_file cfg.log_file)
    then record {
      cfg = record kept { log_file = copy log_file_size new_cfg.log_file };
      reopen_log = true;
      error = none;
    }
    else record { cfg = kept; reopen_log = false; error = none }

reloaded : AppConfig → AppConfig → Option ConfigError → Reloaded
reloaded cfg new_cfg (some e) = record { cfg = cfg; reopen_log = false; error = some e }
reloaded cfg new_cfg none = apply_reload cfg (pin cfg new_cfg)

unfoldable pub reload_config_runtime : AppConfig → File → Reloaded
unfolding reloaded apply_reload pin
reload_config_runtime cfg file = let r = load_config_file file cfg in reloaded cfg r.0 r.1

-- What a successful reload gives: `new` is the configuration that the file gives on top of `cfg`.
pub record Applies (cfg new : AppConfig) (r : Reloaded) : Type 0 where
  pub no_error : r.error ≡ none
  pub ifname : r.cfg.ifname ≡ cfg.ifname
  pub socket_path : r.cfg.socket_path ≡ cfg.socket_path
  pub xdp_flags : r.cfg.xdp_flags ≡ cfg.xdp_flags
  pub interval : r.cfg.stats_interval_sec ≡ new.stats_interval_sec
  pub daemon : r.cfg.daemon_mode ≡ new.daemon_mode
  pub log_file : r.cfg.log_file ≡ new.log_file
  pub reopens : (r.reopen_log ≡ true) ↔ (new.log_file ≢ cfg.log_file)

abbrev pub Unchanged : AppConfig → ConfigError → Reloaded → Type 0
Unchanged cfg e r = (r.cfg ≡ cfg) × (r.reopen_log ≡ false) × (r.error ≡ some e)

-- What `pin` leaves of the new configuration.
abbrev SameRest : AppConfig → AppConfig → Type 0
SameRest new c =
    (c.stats_interval_sec ≡ new.stats_interval_sec)
    × (c.daemon_mode ≡ new.daemon_mode)
    × (c.log_file ≡ new.log_file)

pinned_mode-SameRest : (cfg new : AppConfig) → SameRest new (pinned_mode cfg new)
unfolding pinned_mode
pinned_mode-SameRest cfg new =
    if_both (SameRest new)
      (not (str_eq new.ifname cfg.ifname) || not (new.xdp_flags == cfg.xdp_flags))
      (refl, refl, refl) (refl, refl, refl)

pin-SameRest : (cfg new : AppConfig) → SameRest new (pin cfg new)
unfolding pin
pin-SameRest cfg new =
    if_both (SameRest new) (not (str_eq (pinned_mode cfg new).socket_path cfg.socket_path))
      (pinned_mode-SameRest cfg new) (pinned_mode-SameRest cfg new)

apply_reload_lem :
    (cfg new : AppConfig) → length new.log_file < 256 → Applies cfg new (apply_reload cfg new)
unfolding apply_reload
apply_reload_lem cfg new fits = elim (Bool-cases (str_eq new.log_file cfg.log_file)) [
  | inl same ↦
      let e : new.log_file ≡ cfg.log_file = (str_eq_iff new.log_file cfg.log_file).0 same in
      rw same (record {
        no_error = refl;
        ifname = refl;
        socket_path = refl;
        xdp_flags = refl;
        interval = refl;
        daemon = refl;
        log_file = sym e;
        reopens = (λ h. cc, λ h. absurd (h e));
      })
  | inr other ↦ rw other (record {
    no_error = refl;
    ifname = refl;
    socket_path = refl;
    xdp_flags = refl;
    interval = refl;
    daemon = refl;
    log_file = take_all 255 new.log_file (omega arith);
    reopens = (λ h e. cc (other, (str_eq_iff new.log_file cfg.log_file).1 e), λ h. refl);
  })
]

reloaded-Applies :
    (cfg new : AppConfig)
    → length new.log_file < 256
    → Applies cfg new (apply_reload cfg (pin cfg new))
reloaded-Applies cfg new fits =
    let (si, sd, sl) = pin-SameRest cfg new in
    let a = apply_reload_lem cfg (pin cfg new) (rw sl fits) in
    record {
      no_error = a.no_error;
      ifname = a.ifname;
      socket_path = a.socket_path;
      xdp_flags = a.xdp_flags;
      interval = a.interval ∙ si;
      daemon = a.daemon ∙ sd;
      log_file = a.log_file ∙ sl;
      reopens = (λ h e. a.reopens.0 h (sl ∙ e), λ h. a.reopens.1 (λ e. h (sym sl ∙ e)));
    }

-- What a reload does with what `load_config_file` makes of the running configuration.
abbrev pub ReloadSpec : AppConfig → Loaded → Reloaded → Type 0
ReloadSpec cfg (new, some e) r = Unchanged cfg e r
ReloadSpec cfg (new, none) r = Applies cfg new r

reloaded-ReloadSpec :
    (cfg : AppConfig) (r : Loaded)
    → length r.0.log_file < 256
    → ReloadSpec cfg r (reloaded cfg r.0 r.1)
unfolding reloaded
reloaded-ReloadSpec cfg (new, some e) fits = (refl, refl, refl)
reloaded-ReloadSpec cfg (new, none) fits = reloaded-Applies cfg new fits

stays-IsValid :
    (cfg : AppConfig) (r : Loaded)
    → IsValid cfg
    → IsValid r.0
    → ReloadSpec cfg r (reloaded cfg r.0 r.1)
    → IsValid (reloaded cfg r.0 r.1).cfg
unfolding reloaded
stays-IsValid cfg (new, some e) v w s = v
stays-IsValid cfg (new, none) v w s = record {
  ifname_fits = rw s.ifname v.ifname_fits;
  socket_path_fits = rw s.socket_path v.socket_path_fits;
  log_file_fits = rw s.log_file w.log_file_fits;
  interval_pos = rw s.interval w.interval_pos;
  interval_le = rw s.interval w.interval_le;
  daemon_flag = rw s.daemon w.daemon_flag;
  mode = rw s.xdp_flags v.mode;
}

-- A reload whose file is refused, at its first line or half way, changes nothing and reports that
-- error. One whose file is accepted takes over the interval, the daemon flag and the log file that
-- the file gives on top of the running configuration, keeps the interface, the socket path and the
-- XDP flags, and opens the log again exactly if the log file's name changed. The configuration
-- stays valid either way.
pub reload-ReloadSpec :
    (cfg : AppConfig) (file : File)
    → IsValid cfg
    → ReloadSpec cfg (load_config_file file cfg) (reload_config_runtime cfg file)
      × IsValid (reload_config_runtime cfg file).cfg
unfolding reload_config_runtime
reload-ReloadSpec cfg file v =
    let new = load_config_file-IsValid file cfg v in
    let spec = reloaded-ReloadSpec cfg (load_config_file file cfg) new.log_file_fits in
    (spec, stays-IsValid cfg (load_config_file file cfg) v new spec)

-- What no reload changes.
abbrev pub Pinned : AppConfig → AppConfig → Type 0
Pinned cfg c =
    (c.ifname ≡ cfg.ifname) × (c.socket_path ≡ cfg.socket_path) × (c.xdp_flags ≡ cfg.xdp_flags)

spec-Pinned : (cfg : AppConfig) (l : Loaded) (r : Reloaded) → ReloadSpec cfg l r → Pinned cfg r.cfg
spec-Pinned cfg (new, some e) r s =
    (ap (λ c. c.ifname) s.0, ap (λ c. c.socket_path) s.0, ap (λ c. c.xdp_flags) s.0)
spec-Pinned cfg (new, none) r s = (s.ifname, s.socket_path, s.xdp_flags)

pub reload-Pinned :
    (cfg : AppConfig) (file : File)
    → IsValid cfg
    → Pinned cfg (reload_config_runtime cfg file).cfg × IsValid (reload_config_runtime cfg file).cfg
reload-Pinned cfg file v =
    let (spec, valid) = reload-ReloadSpec cfg file v in
    (spec-Pinned cfg (load_config_file file cfg) (reload_config_runtime cfg file) spec, valid)
