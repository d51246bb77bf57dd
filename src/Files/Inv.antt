-- ===== src/Files/Inv.antt =====
-- The invariant of a file table of src/kern/syscall/filetable.c, its abstract view as a map from file
-- descriptors to open files, and the effect of the lock protocol on one entry.
use native.Mathlib.Decide.{ℕ_discrete}
use ed_operating_system.Prelude.{
  ℕ, zero, suc, ◌+◌, ◌≤◌, ◌<◌, ◌≡◌, sym, ap, refl, fun_ext, true, false, Option, none, some, ◌==◌,
  ==_refl, ==_iff, ==-ne, if◌then◌else◌, ret, arith, Bool-cases, inl, inr,
}
use ed_operating_system.Files.{Fte, Mem, update, FileTable, entry, acquire, release, open_max}
use ed_operating_system.Files.Table.{find_spot, find_first_free_spot}

-- The first slot from `i` on, among `rounds`, that is not taken.
unfoldable pub first_free : (ℕ → ℕ) → Mem → ℕ → ℕ → Option ℕ
first_free ftp m zero i = none
first_free ftp m (suc rounds) i =
    let rest = first_free ftp m rounds (i + 1) in if (m (ftp i)).flag then rest else some i

-- The lowest free slot past the three of standard I/O.
abbrev pub lowest_free : FileTable → Mem → Option ℕ
lowest_free ft m = first_free ft.ftp m 29 3

-- No lock of an entry is taken, no two slots share an entry, and `firstFreeSpot` is up to date.
pub record IsWf (ft : FileTable) (m : Mem) : Type 0 where
  pub quiet : (i : ℕ) → i < open_max → (entry ft m i).locked ≡ false
  pub apart : (i j : ℕ) → i < open_max → j < open_max → ft.ftp i ≡ ft.ftp j → i ≡ j
  pub spot : ft.first_free_spot ≡ lowest_free ft m

-- What a descriptor stands for: the vnode, the offset and the permissions (1 read, 2 write, 3 both).
pub record OpenFile : Type 0 where
  pub vnode : ℕ
  pub position : ℕ
  pub mode : ℕ

abbrev pub descriptor : FileTable → Mem → ℕ → Option OpenFile
descriptor ft m i =
    if (entry ft m i).flag
    then some (record {
      vnode = (entry ft m i).file;
      position = (entry ft m i).offset;
      mode = (entry ft m i).permissions;
    })
    else none

-- Locking an entry and unlocking it again changes nothing.
pub release-acquire :
    (m : Mem) (p : ℕ)
    → (m p).locked ≡ false
    → release p (update m p (record (m p) { locked = true })) ≡ m
release-acquire m p h = fun_ext λ q. elim (Bool-cases (p == q)) [
  | inl e ↦
      let same : p ≡ q = (==_iff p q).0 e in
      rw (← same, ==_refl p) (ap (λ b. record (m p) { locked = b }) (sym h))
  | inr ne ↦ rw ne
]

-- A write between the two, and the release, is one write.
pub release-write :
    (m : Mem) (p : ℕ) (l e : Fte)
    → release p (update (update m p l) p e) ≡ update m p (record e { locked = false })
release-write m p l e =
    fun_ext
      λ q. elim (Bool-cases (p == q)) [ inl same ↦ rw (==_refl p, same) | inr other ↦ rw other ]

pub acquire_lem :
    (m : Mem) (p : ℕ)
    → (m p).locked ≡ false
    → acquire p m ≡ ret (update m p (record (m p) { locked = true }))
acquire_lem m p h = rw h

-- findFirstFreeSpot with every lock free finds the lowest free slot, and leaves memory as it was.
find_spot_lem :
    (ft : FileTable) (m : Mem) (rounds i : ℕ)
    → ((j : ℕ) → j < rounds + i → (entry ft m j).locked ≡ false)
    → find_spot ft rounds i m ≡ ret (first_free ft.ftp m rounds i, m)
unfolding find_spot first_free
find_spot_lem ft m zero i h = refl
find_spot_lem ft m (suc rounds) i h =
    rw
      (
        h i (omega arith),
        release-acquire m (ft.ftp i) (h i (omega arith)),
        ==_refl (ft.ftp i),
        find_spot_lem ft m rounds (i + 1) (λ j lt. h j (omega arith)),
      )
      (ground arith)

pub find_first_free_spot_lem :
    (ft : FileTable) (m : Mem)
    → ((j : ℕ) → j < open_max → (entry ft m j).locked ≡ false)
    → find_first_free_spot ft m ≡ ret (record ft { first_free_spot = lowest_free ft m }, m)
unfolding find_first_free_spot
find_first_free_spot_lem ft m h = rw (find_spot_lem ft m 29 3 h)

-- What `first_free` finds is free, and every slot before it is taken.
pub first_free_lem :
    (ftp : ℕ → ℕ) (m : Mem) (rounds i k : ℕ)
    → first_free ftp m rounds i ≡ some k
    → (i ≤ k) × (k < rounds + i) × ((m (ftp k)).flag ≡ false)
unfolding first_free
first_free_lem ftp m zero i k h = cc
first_free_lem ftp m (suc rounds) i k h = elim (Bool-cases (m (ftp i)).flag) [
  | inl taken ↦ ground (arith, first_free_lem ftp m rounds (i + 1) k)
  | inr free ↦ let e : i ≡ k = ground arith in ground arith
]

pub first_free-before :
    (ftp : ℕ → ℕ) (m : Mem) (rounds i k : ℕ)
    → first_free ftp m rounds i ≡ some k
    → (j : ℕ) → i ≤ j
    → j < k
    → (m (ftp j)).flag ≡ true
unfolding first_free
first_free-before ftp m zero i k h j lo hi = cc
first_free-before ftp m (suc rounds) i k h j lo hi = elim (Bool-cases (m (ftp i)).flag) [
  | inl taken ↦ elim (ℕ_discrete i j) [
    | yes e ↦ rw (← e) taken
    | no ne ↦ first_free-before ftp m rounds (i + 1) k (ground arith) j (omega arith) hi
  ]
  | inr free ↦ absurd (ground arith)
]

pub first_free-none :
    (ftp : ℕ → ℕ) (m : Mem) (rounds i : ℕ)
    → first_free ftp m rounds i ≡ none
    → (j : ℕ) → i ≤ j
    → j < rounds + i
    → (m (ftp j)).flag ≡ true
unfolding first_free
first_free-none ftp m zero i h j lo hi = absurd (omega arith)
first_free-none ftp m (suc rounds) i h j lo hi = elim (Bool-cases (m (ftp i)).flag) [
  | inl taken ↦ elim (ℕ_discrete i j) [
    | yes e ↦ rw (← e) taken
    | no ne ↦ first_free-none ftp m rounds (i + 1) (ground arith) j (omega arith) (omega arith)
  ]
  | inr free ↦ absurd (ground arith)
]

-- The table after `findFirstFreeSpot`.
abbrev pub refreshed : FileTable → Mem → FileTable
refreshed ft m = record ft { first_free_spot = lowest_free ft m }

-- A write of the entry at slot `fd`, between two slots of one table.
module _ {ft : FileTable} {m : Mem} (wf : IsWf ft m) (fd : ℕ) (e : Fte) (hfd : fd < open_max) where
  pub entry-update :
      (j : ℕ)
      → j < open_max
      → entry ft (update m (ft.ftp fd) e) j ≡ (if fd == j then e else entry ft m j)
  entry-update j hj = elim (ℕ_discrete fd j) [
    | yes same ↦ rw (← same, ==_refl fd, ==_refl (ft.ftp fd))
    | no ne ↦ rw (==-ne fd j ne, ==-ne (ft.ftp fd) (ft.ftp j) (λ s. ne (wf.apart fd j hfd hj s)))
  ]

  pub update-IsWf :
      e.locked ≡ false → IsWf (refreshed ft (update m (ft.ftp fd) e)) (update m (ft.ftp fd) e)
  update-IsWf h = record {
    quiet = λ i hi. rw (entry-update i hi) (ground (arith, wf.quiet i hi));
    apart = wf.apart;
    spot = refl;
  }

  pub find-after-write :
      (l : Fte)
      → find_first_free_spot ft
          (release (ft.ftp fd) (update (update m (ft.ftp fd) l) (ft.ftp fd) e))
        ≡ ret (
          refreshed ft (update m (ft.ftp fd) (record e { locked = false })),
          update m (ft.ftp fd) (record e { locked = false }),
        )
  find-after-write l = rw (release-write m (ft.ftp fd) l e) (
      find_first_free_spot_lem ft (update m (ft.ftp fd) (record e { locked = false }))
        (λ j hj. ground (arith, wf.quiet j hj)))
