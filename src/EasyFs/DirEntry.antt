-- ===== src/EasyFs/DirEntry.antt =====
-- tg-rcore-tutorial-easy-fs/src/layout.rs: the name in a directory entry. A name is the list of its
-- bytes, which are UTF-8 when they come from a `str`.
use tg_rcore_tutorial.Prelude.{
  ℕ, zero, suc, ◌+◌, ◌<◌, ◌≡◌, refl, ◌⊎◌, inl, inr, ◌==◌, true, false, List, [], ◌∷◌, length,
  contains, arith, Outcome, ok, panic, ◌>>=◌,
}

abbrev pub name_length_limit : ℕ
name_length_limit = 27

pub record DirEntry : Type 0 where
  pub name : List ℕ
  pub inode_number : ℕ

abbrev pub nul : ℕ → List ℕ
nul zero = []
nul (suc n) = 0 ∷ nul n

-- `bytes[..name.len()].copy_from_slice(name.as_bytes())`
unfoldable pub copy_from_slice : List ℕ → List ℕ → Outcome (List ℕ)
copy_from_slice [] bytes = ok bytes
copy_from_slice (x ∷ xs) [] = panic
copy_from_slice (x ∷ xs) (b ∷ bytes) = copy_from_slice xs bytes >>= λ rest. ok (x ∷ rest)

unfoldable pub new : List ℕ → ℕ → Outcome DirEntry
new name inode_number = copy_from_slice name (nul (name_length_limit + 1)) >>= λ bytes.
    ok (record { name = bytes; inode_number = inode_number })

-- The bytes before the first that is 0. Without one, the index leaves the array.
unfoldable pub before_nul : List ℕ → Outcome (List ℕ)
before_nul [] = panic
before_nul (b ∷ bytes) = elim (b == 0) [
  | true ↦ ok []
  | false ↦ before_nul bytes >>= λ rest. ok (b ∷ rest)
]

unfoldable pub name_of : DirEntry → Outcome (List ℕ)
name_of e = before_nul e.name

-- A copy that fits, with room behind it or without, or one that does not fit.
copy_lem :
    (name : List ℕ) (n : ℕ)
    → contains name 0 ≡ false
    → ((length name < n)
        × (bytes : List ℕ) × (copy_from_slice name (nul n) ≡ ok bytes)
        × (before_nul bytes ≡ ok name))
      ⊎ ((length name ≡ n)
          × (bytes : List ℕ) × (copy_from_slice name (nul n) ≡ ok bytes)
          × (before_nul bytes ≡ panic))
      ⊎ ((n < length name) × (copy_from_slice name (nul n) ≡ panic))
unfolding copy_from_slice before_nul
copy_lem [] zero h = inr (inl (refl, [], refl, refl))
copy_lem [] (suc n) h = inl (omega arith, nul (suc n), refl, refl)
copy_lem (x ∷ xs) zero h = inr (inr (omega arith, refl))
copy_lem (x ∷ xs) (suc n) h =
    let some_x : (x == 0) ≡ false = ground (arith, h) in
    elim (copy_lem xs n (ground (arith, h))) [
      | inl (lt, bytes, copied, read) ↦ inl (
        omega (arith, lt),
        x ∷ bytes,
        rw (copied, copy_from_slice) refl,
        rw (some_x, read, before_nul) refl,
      )
      | inr (inl (same, bytes, copied, read)) ↦ inr (
          inl (
            omega (arith, same),
            x ∷ bytes,
            rw (copied, copy_from_slice) refl,
            rw (some_x, read, before_nul) refl,
          ))
      | inr (inr (gt, stuck)) ↦ inr (inr (omega (arith, gt), rw stuck refl))
    ]

-- The name has no byte 0. An entry for a name of at most 27 bytes gives the name and the inode
-- back. One for a name of 28 bytes is made, but to ask for its name panics. For a longer name `new`
-- panics.
pub name_of-new :
    (name : List ℕ) (inode_number : ℕ)
    → contains name 0 ≡ false
    → ((length name < 28)
        × (e : DirEntry) × (new name inode_number ≡ ok e)
        × (name_of e ≡ ok name)
        × (e.inode_number ≡ inode_number))
      ⊎ ((length name ≡ 28) × (e : DirEntry) × (new name inode_number ≡ ok e) × (name_of e ≡ panic))
      ⊎ ((28 < length name) × (new name inode_number ≡ panic))
unfolding new name_of
name_of-new name inode_number h = elim (copy_lem name 28 h) [
  | inl (lt, bytes, copied, read) ↦
      inl (lt, record { name = bytes; inode_number = inode_number }, rw copied refl, read, refl)
  | inr (inl (same, bytes, copied, read)) ↦
      inr (inl (same, record { name = bytes; inode_number = inode_number }, rw copied refl, read))
  | inr (inr (gt, stuck)) ↦ inr (inr (gt, rw stuck refl))
]
