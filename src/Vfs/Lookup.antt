-- ===== src/Vfs/Lookup.antt =====
-- What `open` makes of a path.
use ross_os.Base.{
  ℕ, ◌≡◌, refl, ap, ◌∙◌, List, [], ◌∷◌, ◌++◌, Option, none, some, ◌==◌, Bool-cases, inl, inr,
}
use ross_os.Vfs.{
  NodeOps, VfsRoot, slash, trim_slashes, split, nonempty, components, strip_prefix, mnt_disk, find,
  open_trimmed, open_path,
}

split_shape : (p : List ℕ) → (head : List ℕ) × (rest : List (List ℕ)) × (split p ≡ head ∷ rest)
unfolding split
split_shape [] = ([], [], refl)
split_shape (c ∷ cs) =
    let (h, r, e) = split_shape cs in
    elim (Bool-cases (c == slash)) [ inl s ↦ ([], split cs, rw s) | inr s ↦ (c ∷ h, r, rw (s, e)) ]

split-append : (p q : List ℕ) → split (p ++ (slash ∷ q)) ≡ split p ++ split q
unfolding split
split-append [] q = refl
split-append (c ∷ cs) q = elim (Bool-cases (c == slash)) [
  | inl s ↦ rw s (ap (λ x. [] ∷ x) (split-append cs q))
  | inr s ↦ let (h, r, e) = split_shape cs in rw (s, split-append cs q, e)
]

nonempty-append : (a b : List (List ℕ)) → nonempty (a ++ b) ≡ nonempty a ++ nonempty b
unfolding nonempty
nonempty-append [] b = refl
nonempty-append ([] ∷ a) b = nonempty-append a b
nonempty-append ((c ∷ cs) ∷ a) b = ap (λ x. (c ∷ cs) ∷ x) (nonempty-append a b)

-- A slash between two texts parts their components.
pub components-append :
    (p q : List ℕ) → components (p ++ (slash ∷ q)) ≡ components p ++ components q
components-append p q = ap nonempty (split-append p q) ∙ nonempty-append (split p) (split q)

-- Slashes at the front name no component.
pub components-trim : (p : List ℕ) → components (trim_slashes p) ≡ components p
unfolding trim_slashes split nonempty
components-trim [] = refl
components-trim (c ∷ cs) = elim (Bool-cases (c == slash)) [
  | inl s ↦ rw (s, components-trim cs)
  | inr s ↦ rw s (rw s refl)
]

module _ {World Node : Type 0} where
  find-append :
      (ops : NodeOps World Node) (w : World) (n : Option Node) (a b : List (List ℕ))
      → find ops w n (a ++ b) ≡ find ops w (find ops w n a) b
  unfolding find
  find-append ops w none [] [] = refl
  find-append ops w none [] (x ∷ b) = refl
  find-append ops w none (x ∷ a) [] = refl
  find-append ops w none (x ∷ a) (y ∷ b) = refl
  find-append ops w (some n) [] b = refl
  find-append ops w (some n) (x ∷ a) b = find-append ops w (ops.finddir w n x) a b

  -- In the root file system, opening `p/q` is opening `p` and walking the components of `q` from
  -- there, whatever empty components and leading slashes the two have.
  pub open_path-join :
      (ops : NodeOps World Node) (w : World) (vfs : VfsRoot Node) (p q : List ℕ)
      → strip_prefix mnt_disk (trim_slashes p) ≡ none
      → strip_prefix mnt_disk (trim_slashes (p ++ (slash ∷ q))) ≡ none
      → open_path ops w vfs (p ++ (slash ∷ q)) ≡ find ops w (open_path ops w vfs p) (components q)
  unfolding open_path open_trimmed
  open_path-join ops w vfs p q h h' =
      rw (h, h', components-trim (p ++ (slash ∷ q)), components-trim p, components-append p q)
        (find-append ops w vfs.root_node (components p) (components q))
