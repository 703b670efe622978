-- ===== src/Tests/Pmm.antt =====
-- The page allocator at concrete inputs.
use ross_os.Base.{
  ℕ, ◌<◌, ◌≡◌, not, refl, ap, sym, suc, List, [], ◌∷◌, arith, replicate, length-replicate,
}
use ross_os.Base.Bits.{zeros}
use ross_os.Pmm.{
  PmmState, MemoryKind, MemoryRegion, max_pages, new_state, init, alloc_page, free_page,
}
use ross_os.Pmm.Bitmap.{is_used, free_in}
use ross_os.Pmm.Calls.{IsValid, Allocates, Freed, alloc_page-Allocates, free_page-Freed, free-alloc}
use ross_os.Pmm.Regions.{
  AllAligned, IsAligned, offered, init_lem, Bytes-replicate, free_in-replicate,
}

-- 640 KB of low memory and a firmware area.
abbrev memory_map : List MemoryRegion
memory_map =
    record { base = 0x1000; size = 0x9_F000; kind = MemoryKind.usable }
    ∷ record { base = 0xA_0000; size = 0x6_0000; kind = MemoryKind.reserved }
    ∷ []

init_lem_example :
    ((q : ℕ)
      → q < max_pages
      → is_used (init memory_map new_state).bitmap q ≡ not (offered memory_map q))
    × IsValid (init memory_map new_state)
    × ((init memory_map new_state).total_count ≡ (init memory_map new_state).free_count)
unfolding AllAligned IsAligned
init_lem_example = init_lem memory_map (omega arith, (tt, tt))

abbrev booted : PmmState
booted = init memory_map new_state

alloc_page-Allocates_example : Allocates booted (alloc_page booted)
alloc_page-Allocates_example = alloc_page-Allocates booted init_lem_example.1

free_page-Freed_example : Freed booted 5 (free_page booted 0x5123)
free_page-Freed_example = free_page-Freed booted 0x5123 init_lem_example.1 (omega arith)

-- Only page 3 is free.
abbrev one_left : PmmState
one_left = record { bitmap = 0xF7 ∷ replicate 32767 0xFF; free_count = 1; total_count = 1 }

one_left-IsValid : IsValid one_left
unfolding free_in zeros
one_left-IsValid = record {
  sized = ap suc (length-replicate {A = ℕ} 32767 0xFF);
  bytes = (omega arith, Bytes-replicate 32767);
  counted = ap suc (sym (free_in-replicate 32767));
}

free-alloc_example :
    ((q : ℕ)
      → is_used (free_page (alloc_page one_left).1 0x3000).bitmap q ≡ is_used one_left.bitmap q)
    × ((free_page (alloc_page one_left).1 0x3000).free_count ≡ 1)
unfolding alloc_page
free-alloc_example = free-alloc one_left (alloc_page one_left).1 0x3000 one_left-IsValid refl
