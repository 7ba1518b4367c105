-- ===== src/Syscall/Wait.antt =====
-- `sys_wait` of kernel/src/syscall.rs, and the release of what a dead child leaves behind.
use mathlib.Core.Option
use unit.Base.{
  ℕ, suc, ◌+◌, ◌-◌, ◌*◌, ◌^◌, Bool, true, false, not, ◌&&◌, ◌||◌, Option, none, some, List, [], ◌∷◌,
  ◌==◌, if◌then◌else◌, get_elem?, set,
}
use unit.Kernel.{Cmd, ◌>>=◌, ◌>>◌, pure, gets, modify, load, expect, for_range}
use unit.Frame.{free_frame}
use unit.PageTable.Entry.{is_valid, is_r, is_w, is_x, ppn_to_addr}
use unit.PageTable.Walk.{entry_at, lookup, kernel_vpn2_min}
use unit.Syscall.Errors.{linux_error, echild}
use unit.Task.Process.{Process, ProcessState, blocked, gone, zombie, kernel_stack_pages}
use unit.Task.Scheduler.{current, occupant, is_gone, schedule}
use unit.Trap.Cow.{handle_cow_fault}
use unit.Trap.Fault.{is_shared, set_state}

-- The exit code of a zombie.
abbrev pub exit_code : ProcessState → Option ℕ
exit_code (zombie code) = some code
exit_code _ = none

-- The code with which a child of `cur_pid` has exited.
abbrev pub dead_child : ℕ → Option Process → Option ℕ
dead_child cur_pid none = none
dead_child cur_pid (some p) = if p.parent_pid == cur_pid then exit_code p.state else none

-- The first loop: slot and code of the first child that has exited.
unfoldable pub find_zombie : ℕ → List (Option Process) → Option (ℕ × ℕ)
find_zombie cur_pid [] = none
find_zombie cur_pid (slot ∷ slots) = elim (dead_child cur_pid slot) [
  | some code ↦ some (0, code)
  | none ↦ Option.map (λ (p : ℕ × ℕ). (suc p.0, p.1)) (find_zombie cur_pid slots)
]

abbrev pub is_zombie : ProcessState → Bool
is_zombie (zombie code) = true
is_zombie _ = false

abbrev pub live_child : ℕ → Option Process → Bool
live_child cur_pid none = false
live_child cur_pid (some p) =
    p.parent_pid == cur_pid && not (is_gone p.state) && not (is_zombie p.state)

-- The second loop: some child is still alive.
unfoldable pub has_live_child : ℕ → List (Option Process) → Bool
has_live_child cur_pid [] = false
has_live_child cur_pid (slot ∷ slots) = live_child cur_pid slot || has_live_child cur_pid slots

-- A middle table that an entry of the second level leads to.
unfoldable pub free_l1 : ℕ → ℕ → Cmd (Unit {0})
free_l1 l2_addr vpn1 = do
  e ← load (entry_at l2_addr vpn1)
  if not (is_valid e)
      then pure tt
      else if not (is_r e) && not (is_w e) && not (is_x e)
      then free_frame (ppn_to_addr e)
      else pure tt

unfoldable pub free_l2 : ℕ → ℕ → Cmd (Unit {0})
free_l2 root vpn2 = do
  e ← load (entry_at root vpn2)
  if not (is_valid e)
      then pure tt
      else do for_range 512 0 (free_l1 (ppn_to_addr e)); free_frame (ppn_to_addr e)

unfoldable pub free_intermediate_frames : ℕ → ℕ → ℕ → Cmd (Unit {0})
free_intermediate_frames root vpn2_min vpn2_max =
    for_range (vpn2_max - vpn2_min) vpn2_min (free_l2 root)

unfoldable pub free_user_pt_resources : Process → Cmd (Unit {0})
free_user_pt_resources child = do
  for_range kernel_stack_pages 0 (λ i. free_frame (child.kernel_stack_frame + i * 4096))
  free_intermediate_frames child.page_table.root 0 kernel_vpn2_min
  free_frame child.page_table.root

-- The page of the pointer is made private first, as a store in the kernel would fault.
unfoldable pub unshare : ℕ → Cmd (Unit {0})
unshare vaddr = do
  cur ← current
  found ← lookup cur.page_table vaddr
  elim found [
    | none ↦ pure tt
    | some entry ↦ do e ← load entry; if is_shared e then handle_cow_fault vaddr entry else pure tt
  ]

-- The child in slot `idx` is released and its slot marked.
unfoldable pub reap : ℕ → Cmd ℕ
reap idx = do
  slot ← gets (λ k. get_elem? k.process_list idx)
  child ← expect (occupant slot)
  free_user_pt_resources child
  modify (λ k. record k {
    process_list = set k.process_list idx (some (record child { state = gone }));
  })
  pure child.pid

-- The half of the addresses that is the user's: the pages below `KERNEL_VPN2_MIN`.
abbrev pub user_half : ℕ
user_half = kernel_vpn2_min * 2 ^ 30

-- `user_store vaddr word` is the processor's store of a word at a virtual address, with SUM set.
module _ (user_store : ℕ → ℕ → Cmd (Unit {0})) where
  unfoldable pub sys_wait : ℕ → Cmd ℕ
  sys_wait exit_code_ptr = do
    cur ← current
    found ← gets (λ k. find_zombie cur.pid k.process_list)
    elim found [
      | some (idx, code) ↦ do
        if exit_code_ptr == 0
            then pure tt
            else (do unshare exit_code_ptr; user_store exit_code_ptr code)
        reap idx
      | none ↦ do
        alive ← gets (λ k. has_live_child cur.pid k.process_list)
        if alive then (do set_state blocked; schedule) else pure (linux_error echild)
    ]
