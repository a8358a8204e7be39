-- ===== src/Sys/Wakeup/Mounts.antt =====
-- core/sys/wakeup/wakeup.c: whether the start comes to the first process.
use h0r_net.Common.{
  [], ◌∷◌, ℕ, suc, ◌<◌, ◌≡◌, refl, ap, ◌==◌, true, false, List, length, map, ok, halted, arith,
  get_elem?-lt, get_elem?-set_self, get_elem?, set, some, sym, ◌∙◌,
}
use h0r_net.Mm.Pmm.{Pmm, pmm_init}
use h0r_net.Siv.{Drive, no_drive, no_driver, Siv, siv_init, siv_register_driver, siv_register_drive}
use h0r_net.Sys.Exec.{with_pmm}
use h0r_net.Sys.Sched.{Registers}
use h0r_net.Sys.Tty.{tty_register}
use h0r_net.Sys.Wakeup.{
  Machine, Boot, err_no_fs, wakeup_init_hw, wakeup_do_mounts, wakeup_startup, kmain,
}
use h0r_net.Tar.{TarContents, parse_tar}
use h0r_net.Tar.Driver.{tar_driver, tar_init}
use h0r_net.Mm.Heap.{Heap}

-- Before the start: the tables of the file layer are empty and have room, there is room for a
-- terminal, and the page allocator starts with `p`.
pub record Startable (b : Boot) (k : Machine) (p : Pmm) : Type 0 where
  pub pages : pmm_init b.memmap k.siv.heap.pmm ≡ ok p
  pub terminals : (k.ttys.next_tty_id == 4) ≡ false
  pub terminal_room : k.ttys.next_tty_id < length k.ttys.ttys
  pub no_drives : k.siv.num_drives ≡ 0
  pub drive_room : k.siv.num_drives < length k.siv.drives
  pub driver_room : k.siv.num_drivers < length k.siv.drivers

-- After the set-up the archive is the only drive.
pub record Mounted (f : ℕ) (b : Boot) (k : Machine) (contents : TarContents) (h : Heap)
    (k1 : Machine) : Type 0 where
  pub one_drive : k1.siv.num_drives ≡ 1
  pub drive :
      get_elem? k1.siv.drives 0
      ≡ some (record { driver_id = k.siv.num_drivers; driver_specific_data = 0 })
  pub driver : get_elem? k1.siv.drivers k.siv.num_drivers ≡ some (tar_driver f contents 0 b.empty)
  pub heap : k1.siv.heap ≡ h
  pub sched : k1.sched ≡ k.sched

length-map : {A B : Type 0} (f : A → B) (xs : List A) → length (map f xs) ≡ length xs
length-map f [] = refl
length-map f (x ∷ xs) = ap suc (length-map f xs)

module _ (f : ℕ) {b : Boot} {k : Machine} {p : Pmm} (s : Startable b k p) where
  abbrev ready : Siv
  ready = siv_init (record (k.siv) { heap = with_pmm k.siv.heap p })

  hw_no_archive :
      (b.initramfs == 0) ≡ true
      → (k1 : Machine) × (wakeup_init_hw f b k ≡ ok k1) × (k1.siv.num_drives ≡ 0)
  unfolding wakeup_init_hw tar_init tty_register siv_init
  hw_no_archive none_there =
      let (old, at) = get_elem?-lt k.ttys.ttys k.ttys.next_tty_id s.terminal_room in
      rw (s.pages, s.terminals, at, none_there) (_, refl, s.no_drives)

  hw_archive :
      (contents : TarContents) (heap : Heap)
      → (b.initramfs == 0) ≡ false
      → parse_tar f (with_pmm k.siv.heap p) b.initramfs b.size ≡ ok (contents, heap)
      → (k1 : Machine) × (wakeup_init_hw f b k ≡ ok k1) × Mounted f b k contents heap k1
  unfolding wakeup_init_hw tar_init tty_register siv_init siv_register_driver siv_register_drive
  hw_archive contents heap there parsed =
      let (old, at) = get_elem?-lt k.ttys.ttys k.ttys.next_tty_id s.terminal_room in
      let drives_room : k.siv.num_drives < length ready.drives =
        omega (arith, s.drive_room, length-map (λ d. no_drive) k.siv.drives) in
      let drivers_room : k.siv.num_drivers < length ready.drivers =
        omega (arith, s.driver_room, length-map (λ d. no_driver) k.siv.drivers) in
      let (old_drive, at_drive) = get_elem?-lt ready.drives k.siv.num_drives drives_room in
      let (old_driver, at_driver) = get_elem?-lt ready.drivers k.siv.num_drivers drivers_room in
      let drive : Drive = record { driver_id = k.siv.num_drivers; driver_specific_data = 0 } in
      let driver = tar_driver f contents k.siv.num_drives b.empty in
      rw (s.pages, s.terminals, at, there, parsed, at_driver, at_drive)
        (
          _,
          refl,
          record {
            one_drive = omega (arith, s.no_drives);
            drive =
                ap (get_elem? (set ready.drives k.siv.num_drives drive)) (sym s.no_drives)
                ∙ get_elem?-set_self ready.drives k.siv.num_drives drive drives_room;
            driver =
                get_elem?-set_self ready.drivers k.siv.num_drivers driver drivers_room
                ∙ ap (λ n. some (tar_driver f contents n b.empty)) s.no_drives;
            heap = refl;
            sched = refl;
          },
        )

  -- Without an archive the kernel halts with HN_ERR_NO_FS before the first process is made.
  pub kmain-no_archive :
      (regs : Registers) → (b.initramfs == 0) ≡ true → kmain f b regs k ≡ halted err_no_fs
  unfolding kmain wakeup_do_mounts
  kmain-no_archive regs none_there =
      let (k1, runs, drives) = hw_no_archive none_there in
      let empty : (k1.siv.num_drives == 0) ≡ true = ap (λ n. n == 0) drives in rw (runs, empty) refl

  -- With an archive that `parse_tar` gets through, the only drive is drive 0, with the driver of the
  -- archive's contents, the heap is as `parse_tar` left it, no process is made yet, and the start
  -- goes on with the first process from there.
  pub kmain-archive :
      (regs : Registers) (contents : TarContents) (heap : Heap)
      → (b.initramfs == 0) ≡ false
      → parse_tar f (with_pmm k.siv.heap p) b.initramfs b.size ≡ ok (contents, heap)
      → (k1 : Machine) × (wakeup_init_hw f b k ≡ ok k1)
        × Mounted f b k contents heap k1
        × (kmain f b regs k ≡ wakeup_startup f b regs k1)
  unfolding kmain wakeup_do_mounts
  kmain-archive regs contents heap there parsed =
      let (k1, runs, mounted) = hw_archive contents heap there parsed in
      let some_drive : (k1.siv.num_drives == 0) ≡ false = ap (λ n. n == 0) mounted.one_drive in
      (k1, runs, mounted, rw (runs, some_drive) refl)
