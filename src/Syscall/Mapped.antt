-- ===== src/Syscall/Mapped.antt =====
-- What `sys_mmap` of kernel/src/syscall.rs does to the areas and the page tables of the current process.
use unit.Base.{
  ◌||◌, ◌≤◌, ◌^◌, ◌∙◌, ℕ, ◌+◌, ◌<◌, ◌≡◌, Bool, true, none, some, arith, test, ◌⊎◌, inl, inr, refl,
}
use unit.Kernel.{Kernel, Outcome, returns}
use unit.Mmap.{prot_read, prot_write, prot_exec, pte_flags_from_prot}
use unit.Mmap.Area.{ceil}
use unit.Mmap.Table.{IsTable}
use unit.Syscall.Break.{IsCurrent}
use unit.Syscall.Memory.{sys_mmap}
use mathlib.Core.Path.{subst}
use unit.PageTable.Defs.{PageTable}
use unit.PageTable.Walk.Tree.{translate}
use unit.Frame.FreeList.{IsFrame}
use unit.PageTable.Entry.{new_leaf}
use unit.Syscall.Rights.{IsUserPage, pte-IsUserPage}
use unit.Syscall.NewPage.{AreSound}
use unit.Syscall.Backing.{AreBacked, Backs, map_zeroed_user_pages-Backs}
use unit.Task.Process.{Process}
use unit.Syscall.Mapping.{AddsMapping, sys_mmap-AddsAreas}

-- What `mmap` of `len` bytes, a whole number of pages, at `start` has made of the page tables: each page of the
-- place had no entry in force and has one now, that leads to a frame of RAM with the rights of the protection,
-- where what may be written may be read; and every other page has the entry that it had, or none as before.
abbrev pub MapsFrames : Kernel → PageTable → ℕ → ℕ → ℕ → (ℕ → ℕ) → Type 0
MapsFrames k pt prot len start m =
    ((a : ℕ)
      → start ≤ a
      → a < start + len
      → (translate k pt a ≡ none)
        × (e : ℕ) × (frame : ℕ) × (translate (record k { memory = m }) pt a ≡ some e)
        × IsFrame frame
        × IsUserPage e frame (test prot prot_read || test prot prot_write) (test prot prot_write)
            (test prot prot_exec))
    × ((a : ℕ)
        → (a < start) ⊎ (start + len ≤ a)
        → a < 2 ^ 39
        → translate (record k { memory = m }) pt a ≡ translate k pt a)

module _ (k : Kernel) (p : Process) (prot flags : ℕ) (at : IsCurrent k p) (t : IsTable p.mmap_areas)
    (sound : AreSound k p.page_table) (len : ℕ) where
  MapsFrames-backed :
      (pte start : ℕ) (j : Kernel)
      → pte_flags_from_prot prot ≡ some pte
      → AreBacked k j p.page_table start (start + ceil len) pte
      → MapsFrames k p.page_table prot (ceil len) start j.memory
  unfolding translate
  MapsFrames-backed pte start j right b = (
    λ a lo hi.
        let (was, frame, f, leads) = b.0 a lo hi in
        let page = pte-IsUserPage prot pte frame right f in
        (was, new_leaf frame pte, frame, leads ∙ rw (page.1) refl, f, page),
    b.1,
  )

  MapsFrames-returned :
      (pte start : ℕ) (j : Kernel) (o : Outcome Bool)
      → pte_flags_from_prot prot ≡ some pte
      → Backs k p start (start + ceil len) pte o
      → o ≡ returns true j
      → MapsFrames k p.page_table prot (ceil len) start j.memory
  MapsFrames-returned pte start j o right (inl e) out = absurd (cc)
  MapsFrames-returned pte start j o right (inr (inl (i, e, s))) out = absurd (cc)
  MapsFrames-returned pte start j o right (inr (inr (i, e, s, w, b))) out =
      let same : i ≡ j = cc in
      MapsFrames-backed pte start j right
        (subst (λ x. AreBacked k x p.page_table start (start + ceil len) pte) same b)

  -- Where the table of areas of the current process is well formed, its page tables are different frames in use,
  -- each of which hangs under a single entry, and the allocator is well formed, `sys_mmap` ends. It panics,
  -- reports EINVAL, ENOSYS or ENOMEM and changes no process, or gives the start of a free place of the region,
  -- with room for the length asked for, rounded up to whole pages. Then the table of the current process
  -- records that place with the protection and flags asked for, in addition to what it recorded, is well formed,
  -- and is all that changed in the list of processes. Each page of the place, which had no entry in force, has
  -- one that leads to a frame of RAM, for a user, with the right to write and that to execute as the
  -- protection says, and that to read if it allows to read or to write. Every other page below 2^39 has the
  -- entry in force that it had, or none as before.
  pub sys_mmap-AddsMapping :
      (addr fd offset : ℕ)
      → AddsMapping k p
          (ceil len)
          prot
          flags
          (MapsFrames k p.page_table prot (ceil len))
          (sys_mmap addr len prot flags fd offset k)
  sys_mmap-AddsMapping =
      sys_mmap-AddsAreas k p prot flags at t len (MapsFrames k p.page_table prot (ceil len))
        (λ pte start j right place. MapsFrames-returned pte start j _ right (
          map_zeroed_user_pages-Backs k p start (start + ceil len) pte at (omega (arith, place.0))
            (omega (arith, place.2)) place.0 (omega arith) sound))
