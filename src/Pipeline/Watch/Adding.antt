-- ===== src/Pipeline/Watch/Adding.antt =====
-- Adding up what the ring buffer gets about a watched source from the parts of
-- xdp_firewall of project_submit/ebpf_control/src/xdp_blacklist.bpf.c.
use ebpf_nids.Prelude.{
  ℕ, ◌+◌, ◌≤◌, ◌≡◌, refl, sym, ap, ◌∙◌, Bool, true, false, List, [], ◌∷◌, ◌++◌, arith, ◌==◌, length,
  length-append, if◌then◌else◌,
}
use ebpf_nids.Kernel.{Kernel, Maps, AlertEvent, RingBuffer, submit}
use ebpf_nids.Pipeline.Due.{about, about-append, about_other, Adds}
use ebpf_nids.Pipeline.Watch.{Watched, Tracks, Raises}

module _ (k : Kernel) where
  pub submit-append :
      (r : RingBuffer) (q : r.State) (a b : List AlertEvent)
      → submit r q (a ++ b) ≡ submit r (submit r q a) b
  unfolding submit
  submit-append r q [] b = refl
  submit-append r q (e ∷ a) b = submit-append r (r.output q e).1 a b

  pub Raises-trans :
      (i j : ℕ) (m : Maps k) (src : ℕ) {a b : List AlertEvent} {v w : Watched} (m' m'' : Maps k)
      → Raises k i m src a v m'
      → Raises k j m' src b w m''
      → Raises k (i + j) m src (a ++ b) w m''
  Raises-trans i j m src m' m'' p q = record {
    events = p.events ++ q.events;
    queued =
        q.queued
        ∙ ap (λ x. submit k.alert_rb x q.events) p.queued
        ∙ sym (submit-append k.alert_rb m.alert_rb p.events q.events);
    few = omega (arith, length-append p.events q.events, p.few, q.few);
    concerning =
        about-append src p.events q.events
        ∙ ap (λ x. x ++ about src q.events) p.concerning
        ∙ ap (◌++◌ _) q.concerning;
    tracks = q.tracks;
  }

  pub Raises-none :
      (n : ℕ) (m : Maps k) (src : ℕ) (w : Watched) → Tracks k m src w → Raises k n m src [] w m
  unfolding submit about
  Raises-none n m src w h = record {
    events = [];
    queued = refl;
    few = omega arith;
    concerning = refl;
    tracks = h;
  }

  -- An event that is sent if a test says so.
  pub submit_if :
      (b : Bool) (q : k.alert_rb.State) (e : AlertEvent)
      → (if b then (k.alert_rb.output q e).1 else q)
        ≡ submit k.alert_rb q (if b then e ∷ [] else [])
  unfolding submit
  submit_if true q e = refl
  submit_if false q e = refl

  pub one_about :
      (b : Bool) (src : ℕ) (e : AlertEvent)
      → e.src_ip ≡ src
      → let es = if b then e ∷ [] else [] in (length es ≤ 1) × (about src es ≡ es)
  unfolding about
  one_about false src e h = (omega arith, refl)
  one_about true src e h = (omega arith, ground (arith, h))

  pub Adds-Raises :
      (m : Maps k) (src other : ℕ) (w : Watched) (m' : Maps k)
      → (other == src) ≡ false
      → Adds k.alert_rb m.alert_rb other m'.alert_rb
      → Tracks k m' src w
      → Raises k 1 m src [] w m'
  Adds-Raises m src other w m' ne a h = record {
    events = a.events;
    queued = a.queued;
    few = a.few;
    concerning = about_other src other a.events ne a.blames;
    tracks = h;
  }
