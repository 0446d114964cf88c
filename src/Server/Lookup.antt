-- ===== src/Server/Lookup.antt =====
-- Which pair of files `check_voice_file` of src/file_server.c finds.
use vpu.Common.{
  ℕ, zero, suc, ◌+◌, ◌*◌, ◌%◌, ◌^◌, ◌<◌, ◌≡◌, ◌≢◌, refl, inl, inr, Bool, true, false, Option, none,
  some, List, [], ◌∷◌, ◌==◌, if◌then◌else◌, is_some, arith, get_or, length, min, Bool-cases, ==→eq,
  not_==→ne, ◌||◌,
}
use vpu.Server.{Stat, find_pair, Where, case_dir, normal_dir, tagged, check_voice_file}

-- both files are there
abbrev pub both : Stat × Stat → Bool
both (none, down) = false
both (some up, none) = false
both (some up, some down) = true

abbrev size_of : Stat × Stat → ℕ
size_of (none, down) = 0
size_of (some up, none) = 0
size_of (some up, some down) = 2 * min (up % 2 ^ 32) (down % 2 ^ 32) % 2 ^ 32

-- what a search over the directories, numbered from `i`, may answer
abbrev pub First : ℕ → List (Stat × Stat) → Option (ℕ × ℕ) → Type 0
First i dirs none = (k : ℕ) → both (get_or dirs k (none, none)) ≡ false
First i dirs (some (j, size)) =
    (k : ℕ) × (j ≡ i + k)
    × (k < length dirs)
    × (both (get_or dirs k (none, none)) ≡ true)
    × (size ≡ size_of (get_or dirs k (none, none)))
    × ((m : ℕ) → m < k → both (get_or dirs m (none, none)) ≡ false)

First-none :
    (d : Stat × Stat) (dirs : List (Stat × Stat)) (k : ℕ)
    → both d ≡ false
    → ((m : ℕ) → m < k → both (get_or dirs m (none, none)) ≡ false)
    → (m : ℕ) → m < suc k
    → both (get_or (d ∷ dirs) m (none, none)) ≡ false
First-none d dirs k e f zero h = e
First-none d dirs k e f (suc m) h = f m (omega arith)

First-skip :
    (i : ℕ) (d : Stat × Stat) (dirs : List (Stat × Stat)) (r : Option (ℕ × ℕ))
    → both d ≡ false
    → First (i + 1) dirs r
    → First i (d ∷ dirs) r
First-skip i d dirs none e f = λ k. First-none d dirs k e (λ m h. f m) k (omega arith)
First-skip i d dirs (some (j, size)) e (k, at, l, b, s, before) =
    (suc k, omega arith, omega arith, b, s, First-none d dirs k e before)

find_pair-First : (i : ℕ) (dirs : List (Stat × Stat)) → First i dirs (find_pair i dirs)
unfolding find_pair
find_pair-First i [] = λ k. refl
find_pair-First i ((none, down) ∷ dirs) =
    First-skip i (none, down) dirs _ refl (find_pair-First (i + 1) dirs)
find_pair-First i ((some up, none) ∷ dirs) =
    First-skip i (some up, none) dirs _ refl (find_pair-First (i + 1) dirs)
find_pair-First i ((some up, some down) ∷ dirs) =
    (0, omega arith, omega arith, refl, refl, λ m h. absurd (omega arith))

-- what `check_voice_file` may answer for the two lists of directories
abbrev pub Found : ℕ → List (Stat × Stat) → List (Stat × Stat) → Option (Where × ℕ × ℕ) → Type 0
Found scase cases normals none = First 0 cases none × (scase ≢ 1 → First 0 normals none)
Found scase cases normals (some (case_dir, i, size)) = First 0 cases (some (i, size))
Found scase cases normals (some (normal_dir, i, size)) =
    First 0 cases none × (scase ≢ 1) × First 0 normals (some (i, size))

chosen :
    (scase : ℕ) (cases normals : List (Stat × Stat)) (p q : Option (ℕ × ℕ))
    → First 0 cases p
    → First 0 normals q
    → Found scase cases normals (
        if (scase == 1) || is_some (tagged case_dir p)
        then tagged case_dir p
        else tagged normal_dir q)
chosen scase cases normals (some (i, size)) q f g = elim (Bool-cases (scase == 1)) [
  | inl e ↦ rw e f
  | inr e ↦ rw e f
]
chosen scase cases normals none none f g = elim (Bool-cases (scase == 1)) [
  | inl e ↦ rw e (f, λ ne. g)
  | inr e ↦ rw e (f, λ ne. g)
]
chosen scase cases normals none (some (i, size)) f g = elim (Bool-cases (scase == 1)) [
  | inl e ↦ rw e (f, λ ne. absurd (ne (==→eq _ _ e)))
  | inr e ↦ rw e (f, not_==→ne _ _ e, g)
]

-- `check_voice_file` answers with the first directory that has both files of the call, and twice the
-- size of the shorter one, each a uint32_t: the case directories are searched first, the others only for a call that is
-- not asked for as a case, and -1 is returned only when no directory that is searched has both files.
pub check_voice_file-Found :
    (scase : ℕ) (cases normals : List (Stat × Stat))
    → Found scase cases normals (check_voice_file scase cases normals)
unfolding check_voice_file
check_voice_file-Found scase cases normals =
    chosen scase cases normals (find_pair 0 cases) (find_pair 0 normals) (find_pair-First 0 cases)
      (find_pair-First 0 normals)
