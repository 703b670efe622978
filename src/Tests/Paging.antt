-- ===== src/Tests/Paging.antt =====
-- Page tables at concrete inputs.
use ross_os.Base.{ℕ, ◌+◌, ◌*◌, refl, ap, sym, suc, ◌∷◌, arith, replicate, length-replicate, inl}
use ross_os.Base.Bits.{zeros}
use ross_os.Pmm.{PmmState}
use ross_os.Pmm.Bitmap.{free_in}
use ross_os.Pmm.Calls.{IsValid}
use ross_os.Pmm.Regions.{Bytes-replicate, free_in-replicate}
use ross_os.Paging.{Vm, map_user_page}
use ross_os.Paging.Mapped.{Maps, map_user_page-Maps}

-- Pages 0 and 1 are in use, 2 to 7 are free.
abbrev pub six_left : PmmState
six_left = record { bitmap = 3 ∷ replicate 32767 0xFF; free_count = 6; total_count = 8 }

pub six_left-IsValid : IsValid six_left
unfolding free_in zeros
six_left-IsValid = record {
  sized = ap suc (length-replicate {A = ℕ} 32767 0xFF);
  bytes = (omega arith, Bytes-replicate 32767);
  counted = ap (λ n. 6 + n) (sym (free_in-replicate 32767));
}

-- Page 1 is an empty top table.
abbrev vm : Vm
vm = record { pmm = six_left; memory = λ a. 0 }

map_user_page-Maps_example :
    Maps vm 0x1000 0x40_0000 (7 * 4096) (map_user_page vm 0x1000 0x40_0000 (7 * 4096) 7)
map_user_page-Maps_example =
    map_user_page-Maps vm 0x1000 0x40_0000 7 7 six_left-IsValid (omega arith)
      ((refl, refl, omega arith), tt, inl refl)
