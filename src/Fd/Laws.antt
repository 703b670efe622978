-- ===== src/Fd/Laws.antt =====
-- What a descriptor table promises to the system calls.
use ross_os.Base.{
  ℕ, ◌-◌, ◌≤◌, ◌<◌, ◌≡◌, ◌≢◌, refl, ap, sym, ◌∙◌, subst, Option, none, some, Bool, true, false,
  arith, length, ltb, ◌&&◌, if_both, set, slot_at, find_free, Found, find_free-Found, length-set,
  slot_at-set_self, slot_at-set_ne, slot_at_free, slot_at_busy,
}
use native.Mathlib.Decide.{ℕ_discrete}
use ross_os.Fd.{
  fd_max, is_some, FdEntry, FdTable, stdin, stdout, stderr, pipe, vfs_file, alloc_at, alloc, get,
  close, moved_at, move_offset,
}

module _ {Node : Type 0} where
  -- The result of `alloc`: the lowest free descriptor from 3 on, and nothing else touched.
  pub record Allocated (t : FdTable Node) (entry : FdEntry Node) (fd : ℕ) (t' : FdTable Node)
      : Type 0 where
    pub above_stdio : 3 ≤ fd
    pub inside : fd < fd_max
    pub unused : get t fd ≡ none
    pub lowest : (j : ℕ) → 3 ≤ j → j < fd → get t j ≢ none
    pub stored : get t' fd ≡ some entry
    pub others : (j : ℕ) → j ≢ fd → get t' j ≡ get t j
    pub sized : length t' ≡ fd_max

  abbrev pub Allocates : FdTable Node → FdEntry Node → Option ℕ × FdTable Node → Type 0
  Allocates t entry (some fd, t') = Allocated t entry fd t'
  Allocates t entry (none, t') = (t' ≡ t) × ((j : ℕ) → 3 ≤ j → j < fd_max → get t j ≢ none)

  alloc_at-Allocates :
      (t : FdTable Node) (entry : FdEntry Node) (r : Option ℕ)
      → length t ≡ fd_max
      → Found t 3 (fd_max - 3) r
      → Allocates t entry (alloc_at t entry r)
  unfolding alloc_at
  alloc_at-Allocates t entry none e f =
      (refl, λ j above below. slot_at_busy t j (omega arith) (f j above below))
  alloc_at-Allocates t entry (some fd) e f = record {
    above_stdio = f.from;
    inside = f.inside;
    unused = slot_at_free t fd f.is_free;
    lowest = λ j above below. slot_at_busy t j (omega (arith, f.inside)) (f.taken j above below);
    stored = slot_at-set_self t fd _ (omega (arith, f.inside));
    others = λ j ne. slot_at-set_ne t fd j _ (λ same. ne (sym same));
    sized = length-set t fd _ ∙ e;
  }

  -- On a table of 64 slots, `alloc` gives the lowest free descriptor from 3 on, stores the entry there
  -- and leaves every other slot; it fails, changing nothing, only when 3 to 63 are all taken.
  pub alloc-Allocates :
      (t : FdTable Node) (entry : FdEntry Node)
      → length t ≡ fd_max
      → Allocates t entry (alloc t entry)
  unfolding alloc
  alloc-Allocates t entry e =
      alloc_at-Allocates t entry (find_free (fd_max - 3) 3 t) e (find_free-Found (fd_max - 3) 3 t)

  close_taken :
      (t : FdTable Node) (fd : ℕ) (e : FdEntry Node)
      → fd < fd_max
      → slot_at t fd ≡ some e
      → close t fd ≡ (true, set t fd none)
  unfolding close
  close_taken t fd e h s = ground arith

  close_free : (t : FdTable Node) (fd : ℕ) → slot_at t fd ≡ none → close t fd ≡ (false, t)
  unfolding close
  close_free t fd s = ground arith

  -- `close` of a descriptor that `alloc` has given frees it: it succeeds once, fails when repeated, and
  -- the table is then what it was before `alloc`, at every descriptor.
  pub close-alloc :
      (t t' : FdTable Node) (entry : FdEntry Node) (fd : ℕ)
      → length t ≡ fd_max
      → alloc t entry ≡ (some fd, t')
      → ((close t' fd).0 ≡ true)
        × ((close (close t' fd).1 fd).0 ≡ false)
        × ((j : ℕ) → get (close t' fd).1 j ≡ get t j)
  close-alloc t t' entry fd e h = (ap (λ r. r.0) first, again, restored)
    where
      a : Allocated t entry fd t'
      a = subst (Allocates t entry) h (alloc-Allocates t entry e)

      first : close t' fd ≡ (true, set t' fd none)
      first = close_taken t' fd entry a.inside a.stored

      gone : slot_at (set t' fd none) fd ≡ none
      gone = slot_at-set_self t' fd none (omega (arith, a.sized, a.inside))

      again : (close (close t' fd).1 fd).0 ≡ false
      again = ap (λ r. (close r.1 fd).0) first ∙ ap (λ r. r.0) (close_free (set t' fd none) fd gone)

      restored : (j : ℕ) → get (close t' fd).1 j ≡ get t j
      restored j = ap (λ r. slot_at r.1 j) first ∙ elim (ℕ_discrete j fd) [
        | yes same ↦
            ap (slot_at (set t' fd none)) same ∙ gone ∙ sym (ap (slot_at t) same ∙ a.unused)
        | no ne ↦ slot_at-set_ne t' fd j none (λ q. ne (sym q)) ∙ a.others j ne
      ]

  length-moved_at :
      (t : FdTable Node) (fd n : ℕ) (entry : Option (FdEntry Node))
      → length (moved_at t fd n entry) ≡ length t
  unfolding moved_at
  length-moved_at t fd n none = refl
  length-moved_at t fd n (some (vfs_file node off)) = length-set t fd _
  length-moved_at t fd n (some (pipe id)) = refl
  length-moved_at t fd n (some stdin) = refl
  length-moved_at t fd n (some stdout) = refl
  length-moved_at t fd n (some stderr) = refl

  pub length-move_offset : (t : FdTable Node) (fd n : ℕ) → length (move_offset t fd n) ≡ length t
  unfolding move_offset
  length-move_offset t fd n = length-moved_at t fd n (slot_at t fd)

  pub length-close : (t : FdTable Node) (fd : ℕ) → length (close t fd).1 ≡ length t
  unfolding close
  length-close t fd =
      if_both (λ (r : Bool × FdTable Node). length r.1 ≡ length t)
        (ltb fd fd_max && is_some (slot_at t fd)) _ _ (length-set t fd none) refl
