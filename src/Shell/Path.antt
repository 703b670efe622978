-- ===== src/Shell/Path.antt =====
-- Paths relative to the working directory, and what `cd` does.
use ross_os.Base.{
  ℕ, ◌≤◌, ◌≡◌, refl, ap, sym, ◌∙◌, List, [], ◌∷◌, ◌++◌, Option, none, some, Bool, true, false, ◌==◌,
  if◌then◌else◌, Bool-cases, inl, inr, min, length, length-take, take, arith,
}
use mathlib.Core.List.{append_assoc, append-nil}
use ross_os.Base.Bytes.{overwrite}
use ross_os.Base.Slices.{take-min}
use ross_os.Vfs.{open_path, components, split, nonempty, slash}
use ross_os.Vfs.Lookup.{components-append}
use ross_os.Shell.{
  Shell, Services, max_cwd, cwd, resolve, resolve_in, starts_with_slash, ends_with_slash, set_cwd,
}
use ross_os.Shell.Files.{cmd_cd, cd_to, is_directory}
use ross_os.Shell.Line.{IsShell}

is_slash : (c : ℕ) → (c == slash) ≡ true → c ≡ slash
is_slash c h = ground arith

without_slash : (p : List ℕ) → ends_with_slash p ≡ true → (q : List ℕ) × (p ≡ q ++ (slash ∷ []))
unfolding ends_with_slash
without_slash [] h = absurd (ground arith)
without_slash (c ∷ []) h = ([], ap {B = List ℕ} (λ x. x ∷ []) (is_slash c h))
without_slash (c ∷ d ∷ cs) h = let (q, e) = without_slash (d ∷ cs) h in (c ∷ q, ap (λ r. c ∷ r) e)

-- A relative path names the components of the working directory and then its own.
pub components-resolve_in :
    (dir path : List ℕ)
    → starts_with_slash path ≡ false
    → components (resolve_in dir path) ≡ components dir ++ components path
unfolding resolve_in split nonempty
components-resolve_in dir path relative = elim (Bool-cases (ends_with_slash dir)) [
  | inl slashed ↦
      let (q, e) = without_slash dir slashed in
      rw (relative, slashed)
        (ap (λ c. components (c ++ path)) e
          ∙ ap components (append_assoc q (slash ∷ []) path)
          ∙ components-append q path
          ∙ ap (λ l. l ++ components path)
              (sym (append-nil (components q))
                ∙ sym (components-append q [])
                ∙ ap components (sym e)))
  | inr bare ↦ rw (relative, bare) (components-append dir path)
]

take-overwrite :
    (buf bs : List ℕ) → length bs ≤ length buf → take (length bs) (overwrite buf 0 bs) ≡ bs
unfolding overwrite
take-overwrite [] [] h = refl
take-overwrite [] (b ∷ bs) h = absurd (omega (arith, h))
take-overwrite (x ∷ xs) [] h = refl
take-overwrite (x ∷ xs) (b ∷ bs) h = ap (λ r. b ∷ r) (take-overwrite xs bs (omega (arith, h)))

module _ {World Node : Type 0} (services : Services World Node) where
  unfoldable pub leads_to_directory : Shell World Node → List ℕ → Bool
  leads_to_directory s path = elim (open_path services.ops s.world s.vfs path) [
    | none ↦ false
    | some node ↦ is_directory (services.ops.attribute s.world node)
  ]

  set_cwd-cwd :
      (s : Shell World Node) (path : List ℕ) → IsShell s → cwd (set_cwd s path) ≡ take max_cwd path
  unfolding set_cwd
  set_cwd-cwd s path ok =
      ap (λ n. take n (overwrite s.cwd_buf 0 written))
        (omega (arith, length-take (min (length path) max_cwd) path))
      ∙ take-overwrite s.cwd_buf written
          (omega (arith, length-take (min (length path) max_cwd) path, ok.cwd_buffer))
      ∙ take-min max_cwd path
    where
      written : List ℕ
      written = take (min (length path) max_cwd) path

  -- In a shell with well-formed buffers, `cd` makes the path that it resolves the working
  -- directory if the path leads to a directory, cut off behind 64 bytes, and leaves the working
  -- directory as it is otherwise.
  pub cmd_cd-cwd :
      (s : Shell World Node) (raw : List ℕ)
      → IsShell s
      → cwd (cmd_cd services s raw)
        ≡ (if leads_to_directory s (resolve s raw) then take max_cwd (resolve s raw) else cwd s)
  unfolding cmd_cd cd_to leads_to_directory
  cmd_cd-cwd s raw ok = from_node (open_path services.ops s.world s.vfs (resolve s raw))
    where
      from_node :
          (o : Option Node)
          → cwd (cd_to services s (resolve s raw) o) ≡ (
              if elim o [
                | none ↦ false
                | some node ↦ is_directory (services.ops.attribute s.world node)
              ]
              then take max_cwd (resolve s raw)
              else cwd s)
      from_node none = refl
      from_node (some node) =
          elim (Bool-cases (is_directory (services.ops.attribute s.world node))) [
            | inl d ↦ rw d (set_cwd-cwd s (resolve s raw) ok)
            | inr f ↦ rw f refl
          ]
