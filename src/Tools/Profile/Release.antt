-- ===== src/Tools/Profile/Release.antt =====
-- That `main` of examples/c/profile.c gives back what it acquires.
use ebpf_nids.Prelude.{
  ℕ, suc, ◌+◌, ◌≡◌, refl, Bool, true, false, not, Option, none, some, List, [], ◌∷◌, ◌++◌, arith,
  ◌==◌, if◌then◌else◌, if_both,
}
use ebpf_nids.Tools.Ledger.{count, weight, count-append}
use ebpf_nids.Tools.Profile.{
  Resource, online_mask, skel, symbolizer, ring_buf, pefds_array, links_array, perf_fd, link, Cpu,
  empty_slot, blank_slots, Attached, add_slot, give_up, attach_cpus, destroy_links, close_pefds,
  free_slots, cleanup, Answers, Run, poll_and_finish, run_profile,
}

unfoldable pub is_link : Resource → Bool
is_link (link cpu) = true
is_link _ = false

unfoldable pub online_count : List Cpu → ℕ
online_count [] = 0
online_count (c ∷ cs) = if c.online then 1 + online_count cs else online_count cs

module _ (P : Resource → Bool) where
  blank_links : (cs : List Cpu) → destroy_links (blank_slots cs) ≡ []
  unfolding blank_slots destroy_links
  blank_links [] = refl
  blank_links (c ∷ cs) = blank_links cs

  blank_pefds : (cs : List Cpu) → close_pefds (blank_slots cs) ≡ []
  unfolding blank_slots close_pefds
  blank_pefds [] = refl
  blank_pefds (c ∷ cs) = blank_pefds cs

  -- The slots hold what the loop acquired.
  IsHeld : Attached → Type 0
  IsHeld a = count P a.acquired ≡ count P (destroy_links a.slots) + count P (close_pefds a.slots)

  add_slot-IsHeld_offline : (a : Attached) → IsHeld a → IsHeld (add_slot empty_slot [] a)
  unfolding IsHeld add_slot destroy_links close_pefds
  add_slot-IsHeld_offline a h = h

  add_slot-IsHeld :
      (fd cpu : ℕ) (a : Attached)
      → IsHeld a
      → IsHeld
          (add_slot (record { pefd = some fd; link = some cpu }) (perf_fd fd ∷ link cpu ∷ []) a)
  unfolding IsHeld add_slot destroy_links close_pefds count
  add_slot-IsHeld fd cpu a h = ground (arith, h)

  give_up-IsHeld_unopened : (cs : List Cpu) → IsHeld (give_up empty_slot [] cs)
  unfolding IsHeld give_up destroy_links close_pefds count
  give_up-IsHeld_unopened cs = rw (blank_links cs, blank_pefds cs) (omega arith)

  give_up-IsHeld :
      (fd : ℕ) (cs : List Cpu)
      → IsHeld (give_up (record { pefd = some fd; link = none }) (perf_fd fd ∷ []) cs)
  unfolding IsHeld give_up destroy_links close_pefds count
  give_up-IsHeld fd cs = rw (blank_links cs, blank_pefds cs) (omega arith)

  attach_first-IsHeld :
      (cpu : ℕ) (online attaches : Bool) (opened : Option ℕ) (cs : List Cpu)
      → IsHeld (attach_cpus (suc cpu) cs)
      → IsHeld (
          attach_cpus cpu
            (record { online = online; perf_event_open = opened; attaches = attaches } ∷ cs))
  unfolding attach_cpus
  attach_first-IsHeld cpu false attaches opened cs h =
      add_slot-IsHeld_offline (attach_cpus (suc cpu) cs) h
  attach_first-IsHeld cpu true attaches none cs h = give_up-IsHeld_unopened cs
  attach_first-IsHeld cpu true false (some fd) cs h = give_up-IsHeld fd cs
  attach_first-IsHeld cpu true true (some fd) cs h =
      add_slot-IsHeld fd cpu (attach_cpus (suc cpu) cs) h

  attach_cpus-IsHeld : (cpu : ℕ) (cs : List Cpu) → IsHeld (attach_cpus cpu cs)
  unfolding IsHeld attach_cpus count destroy_links close_pefds
  attach_cpus-IsHeld cpu [] = omega arith
  attach_cpus-IsHeld cpu (c ∷ cs) =
      attach_first-IsHeld cpu c.online c.attaches c.perf_event_open cs
        (attach_cpus-IsHeld (suc cpu) cs)

  -- All that a run acquired is released, and nothing else.
  IsReleased : Run → Type 0
  IsReleased r = count P r.acquired ≡ count P r.released

  poll_and_finish-IsReleased : (a : Attached) → IsHeld a → IsReleased (poll_and_finish a)
  unfolding IsHeld IsReleased poll_and_finish cleanup free_slots count
  poll_and_finish-IsReleased a h =
      let links = destroy_links a.slots in
      let fds = close_pefds a.slots in
      let tail = ring_buf ∷ skel ∷ symbolizer ∷ online_mask ∷ [] in
      omega (
        arith,
        h,
        count-append P (links ++ (links_array ∷ (fds ++ (pefds_array ∷ [])))) tail,
        count-append P links (links_array ∷ (fds ++ (pefds_array ∷ []))),
        count-append P fds (pefds_array ∷ []),
      )

  run_profile-IsReleased : (w : Answers) → IsReleased (run_profile w)
  unfolding run_profile IsReleased cleanup free_slots count
  run_profile-IsReleased w = if_both IsReleased (not (w.mask_error == 0)) refl (after_mask w.cpus)
    where
      after_mask :
          (cs : List Cpu) → IsReleased (run_profile (record w { mask_error = 0; cpus = cs }))
      after_mask [] = refl
      after_mask (c ∷ cs) = if_both IsReleased (not w.open_and_load) refl (
          if_both IsReleased (not w.symbolizer_new) (omega arith) (
            if_both IsReleased (not w.ring_buffer_new) (omega arith) (
              poll_and_finish-IsReleased (attach_cpus 0 (c ∷ cs)) (attach_cpus-IsHeld 0 (c ∷ cs)))))

-- A loop that goes through has attached the program on each processor that is online.
AllAttached : List Cpu → Attached → Type 0
AllAttached cs a = a.ok ≡ true → count is_link a.acquired ≡ online_count cs

attached_first :
    (cpu : ℕ) (online attaches : Bool) (opened : Option ℕ) (cs : List Cpu)
    → AllAttached cs (attach_cpus (suc cpu) cs)
    → let c : Cpu = record { online = online; perf_event_open = opened; attaches = attaches } in
      AllAttached (c ∷ cs) (attach_cpus cpu (c ∷ cs))
unfolding AllAttached attach_cpus add_slot give_up count weight is_link online_count
attached_first cpu false attaches opened cs h = h
attached_first cpu true attaches none cs h = λ ok. absurd (ground arith)
attached_first cpu true false (some fd) cs h = λ ok. absurd (ground arith)
attached_first cpu true true (some fd) cs h = λ ok. ground (arith, h ok)

attach_cpus-AllAttached : (cpu : ℕ) (cs : List Cpu) → AllAttached cs (attach_cpus cpu cs)
unfolding AllAttached attach_cpus count online_count
attach_cpus-AllAttached cpu [] = λ ok. refl
attach_cpus-AllAttached cpu (c ∷ cs) =
    attached_first cpu c.online c.attaches c.perf_event_open cs
      (attach_cpus-AllAttached (suc cpu) cs)

-- A run that polls has its program on each processor that is online, and its status is 0.
IsComplete : List Cpu → Run → Type 0
IsComplete cs r = r.polled ≡ true → (count is_link r.acquired ≡ online_count cs) × (r.status ≡ 0)

poll_and_finish-IsComplete :
    (cs : List Cpu) (a : Attached) → AllAttached cs a → IsComplete cs (poll_and_finish a)
unfolding IsComplete AllAttached poll_and_finish count weight is_link
poll_and_finish-IsComplete cs a h = λ ok. (ground (arith, h ok), ground (arith, ok))

run_profile-IsComplete : (w : Answers) → IsComplete w.cpus (run_profile w)
unfolding run_profile IsComplete
run_profile-IsComplete w =
    if_both (IsComplete w.cpus) (not (w.mask_error == 0)) never (after_mask w.cpus)
  where
    never : {A : Type 0} → false ≡ true → A
    never e = absurd (ground arith)

    after_mask :
        (cs : List Cpu) → IsComplete cs (run_profile (record w { mask_error = 0; cpus = cs }))
    after_mask [] = never
    after_mask (c ∷ cs) = if_both (IsComplete (c ∷ cs)) (not w.open_and_load) never (
        if_both (IsComplete (c ∷ cs)) (not w.symbolizer_new) never (
          if_both (IsComplete (c ∷ cs)) (not w.ring_buffer_new) never (
            poll_and_finish-IsComplete (c ∷ cs) (attach_cpus 0 (c ∷ cs))
              (attach_cpus-AllAttached 0 (c ∷ cs)))))

-- Whatever the libraries answer, the profiler releases exactly what it acquired: of every kind of
-- resource, as many. If it comes to the polling, the program is attached once for each processor
-- that is online, and the exit status is 0.
pub run_profile_lem :
    (w : Answers)
    → ((P : Resource → Bool) → count P (run_profile w).acquired ≡ count P (run_profile w).released)
      × ((run_profile w).polled ≡ true
          → (count is_link (run_profile w).acquired ≡ online_count w.cpus)
            × ((run_profile w).status ≡ 0))
unfolding IsReleased IsComplete
run_profile_lem w = ((λ P. run_profile-IsReleased P w), run_profile-IsComplete w)
