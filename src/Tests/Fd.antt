-- ===== src/Tests/Fd.antt =====
-- The descriptor table at concrete inputs.
use ross_os.Base.{ℕ, ◌≡◌, refl, some, true, false, find_free}
use ross_os.Fd.{FdTable, pipe, with_stdio, alloc, get, close}
use ross_os.Fd.Laws.{Allocates, alloc-Allocates, close-alloc}

abbrev stdio : FdTable ℕ
unfolding with_stdio
stdio = with_stdio

alloc-Allocates_example : Allocates {Node = ℕ} with_stdio (pipe 5) (alloc with_stdio (pipe 5))
unfolding with_stdio
alloc-Allocates_example = alloc-Allocates with_stdio (pipe 5) refl

alloc_three : (alloc {Node = ℕ} with_stdio (pipe 5)).0 ≡ some 3
unfolding with_stdio alloc find_free
alloc_three = refl

close-alloc_example :
    let t = (alloc {Node = ℕ} with_stdio (pipe 5)).1 in
    ((close t 3).0 ≡ true)
    × ((close (close t 3).1 3).0 ≡ false)
    × ((j : ℕ) → get (close t 3).1 j ≡ get {Node = ℕ} with_stdio j)
unfolding with_stdio alloc find_free
close-alloc_example = close-alloc with_stdio (alloc with_stdio (pipe 5)).1 (pipe 5) 3 refl refl
