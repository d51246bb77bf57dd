-- ===== src/Sfs/Discard.antt =====
-- The loops of sfs_itrunc (src/kern/fs/sfs/sfs_bmap.c) that free the blocks past an index.
use mathlib.Core.Bool.{false≢true}
use ed_operating_system.Prelude.{
  ℕ, zero, suc, ◌+◌, ◌<◌, ◌≤◌, ◌≡◌, ◌≢◌, inl, inr, refl, ap, sym, ◌∙◌, Bool, true, false, not, ◌&&◌,
  List, [], ◌∷◌, length, get_or, leb, ◌==◌, if◌then◌else◌, ==-ne, ==_refl, Bool-cases, Returns,
  Returns->>=, arith,
}
use ed_operating_system.Bitmap.{isset, unmark}
use ed_operating_system.Bitmap.Spec.{Sets, unmark_lem}
use ed_operating_system.Sfs.{Fs, bfree}
use ed_operating_system.Sfs.Disk.{Device}
use ed_operating_system.Sfs.Alloc.{IsMounted}
use ed_operating_system.Sfs.Mapping.{InUse}
use ed_operating_system.Sfs.Trunc.{discard}

module _ {D : Type 0} (dev : Device D) where
  -- A file system with one block less in use.
  pub record Frees (b : ℕ) (fs fs' : Fs D) : Type 0 where
    pub mounted : IsMounted dev fs'
    pub size : fs'.nblocks ≡ fs.nblocks
    pub disk : fs'.disk ≡ fs.disk
    pub only : (c : ℕ) → isset fs'.freemap c ≡ (if b == c then false else isset fs.freemap c)

  pub bfree-Frees :
      (b : ℕ) (fs : Fs D)
      → IsMounted dev fs
      → InUse fs b
      → b ≢ 0
      → Returns (Frees b fs) (bfree dev b fs)
  unfolding bfree
  bfree-Frees b fs m (lt, used) nz =
      Returns->>= (Sets fs.freemap b false) (Frees b fs) (unmark fs.freemap b) _
        (unmark_lem b m.valid (omega (arith, m.covers)) used)
        (λ f h. record {
          mounted = record {
            valid = h.valid;
            boot = h.only 0 ∙ rw (==-ne b 0 nz) m.boot;
            tail = λ c lo hi.
                h.only c ∙ rw (==-ne b c (λ e. omega arith)) (m.tail c lo (omega (arith, h.size)));
            covers = omega (arith, m.covers, h.size);
            fits = m.fits;
          };
          size = refl;
          disk = refl;
          only = h.only;
        })

  -- The blocks of a list, from index `i` on, that lie past `cut`.
  abbrev pub IsPast : ℕ → ℕ → List ℕ → ℕ → Type 0
  IsPast cut i bs n = (n < length bs) × (cut ≤ i + n) × (get_or bs n 0 ≢ 0)

  -- They can be freed: they are in use, and no two are the same.
  pub record CanDiscard (cut i : ℕ) (bs : List ℕ) (fs : Fs D) : Type 0 where
    pub used : (n : ℕ) → IsPast cut i bs n → InUse fs (get_or bs n 0)
    pub distinct :
        (n k : ℕ) → IsPast cut i bs n → IsPast cut i bs k → get_or bs n 0 ≡ get_or bs k 0 → n ≡ k

  pub record Discarded (cut i : ℕ) (bs : List ℕ) (fs : Fs D) (r : List ℕ × Bool × Fs D)
      : Type 0 where
    pub mounted : IsMounted dev r.2
    pub size : r.2.nblocks ≡ fs.nblocks
    pub disk : r.2.disk ≡ fs.disk
    pub count : length r.0 ≡ length bs
    pub entries : (n : ℕ) → get_or r.0 n 0 ≡ (if leb cut (i + n) then 0 else get_or bs n 0)
    pub unchanged : r.1 ≡ false → r.0 ≡ bs
    pub freed : (n : ℕ) → IsPast cut i bs n → isset r.2.freemap (get_or bs n 0) ≡ false
    pub kept :
        (c : ℕ)
        → ((n : ℕ) → IsPast cut i bs n → get_or bs n 0 ≢ c)
        → isset r.2.freemap c ≡ isset fs.freemap c

  suc_injective : {n k : ℕ} → suc n ≡ suc k → n ≡ k
  suc_injective e = omega arith

  zero_or_suc : (C : ℕ → Type 0) → C 0 → ((n : ℕ) → C (suc n)) → (n : ℕ) → C n
  zero_or_suc C z s zero = z
  zero_or_suc C z s (suc n) = s n

  module _ (cut i b : ℕ) (bs : List ℕ) where
    in_tail : (n : ℕ) → IsPast cut (i + 1) bs n → IsPast cut i (b ∷ bs) (suc n)
    in_tail n h = (omega (arith, h.0), omega (arith, h.1), h.2)

    of_tail : (n : ℕ) → IsPast cut i (b ∷ bs) (suc n) → IsPast cut (i + 1) bs n
    of_tail n h = (omega (arith, h.0), omega (arith, h.1), h.2)

    CanDiscard-tail : {fs : Fs D} → CanDiscard cut i (b ∷ bs) fs → CanDiscard cut (i + 1) bs fs
    CanDiscard-tail c = record {
      used = λ n h. c.used (suc n) (in_tail n h);
      distinct =
          λ n k h h' e. suc_injective (c.distinct (suc n) (suc k) (in_tail n h) (in_tail k h') e);
    }

    -- A head that stays.
    skipped :
        (fs : Fs D)
        → (leb cut i && not (b == 0)) ≡ false
        → (r : List ℕ × Bool × Fs D) → Discarded cut (i + 1) bs fs r
        → Discarded cut i (b ∷ bs) fs (b ∷ r.0, r.1, r.2)
    skipped fs over r h = record {
      mounted = h.mounted;
      size = h.size;
      disk = h.disk;
      count = ap suc h.count;
      entries = zero_or_suc _ (ground (arith, over)) (λ n. ground (arith, h.entries n));
      unchanged = λ e. ap (λ t. b ∷ t) (h.unchanged e);
      freed =
          zero_or_suc _ (λ p. absurd (ground (arith, over, p.1, p.2)))
            (λ n p. h.freed n (of_tail n p));
      kept = λ c none. h.kept c (λ n p. none (suc n) (in_tail n p));
    }

    -- A head that goes.
    module _ {fs fs1 : Fs D} (c : CanDiscard cut i (b ∷ bs) fs) (head : IsPast cut i (b ∷ bs) 0)
        (f : Frees b fs fs1) where
      other : (n : ℕ) → IsPast cut (i + 1) bs n → get_or bs n 0 ≢ b
      other n h e = omega (arith, c.distinct (suc n) 0 (in_tail n h) head e)

      CanDiscard-freed : CanDiscard cut (i + 1) bs fs1
      CanDiscard-freed = record {
        used = λ n h.
            let u : InUse fs (get_or bs n 0) = c.used (suc n) (in_tail n h) in
            (
              omega (arith, f.size, u.0),
              f.only (get_or bs n 0) ∙ rw (==-ne b (get_or bs n 0) (λ e. other n h (sym e))) u.1,
            );
        distinct =
            λ n k h h' e. suc_injective (c.distinct (suc n) (suc k) (in_tail n h) (in_tail k h') e);
      }

      freed_head :
          (r : List ℕ × Bool × Fs D)
          → Discarded cut (i + 1) bs fs1 r
          → Discarded cut i (b ∷ bs) fs (0 ∷ r.0, true, r.2)
      freed_head r h = record {
        mounted = h.mounted;
        size = h.size ∙ f.size;
        disk = h.disk ∙ f.disk;
        count = ap suc h.count;
        entries = zero_or_suc _ (ground (arith, head.1)) (λ n. ground (arith, h.entries n));
        unchanged = λ e. absurd (false≢true (sym e));
        freed =
            zero_or_suc _ (λ p. h.kept b other ∙ f.only b ∙ rw (==_refl b))
              (λ n p. h.freed n (of_tail n p));
        kept = λ x none.
            h.kept x (λ n p. none (suc n) (in_tail n p)) ∙ f.only x ∙ rw (==-ne b x (none 0 head));
      }

  -- A loop of sfs_itrunc over blocks that are in use and distinct returns. The entries past the cut are
  -- zero afterwards and the others as before; the blocks of those entries are free, and no other block
  -- changes its state.
  pub discard_lem :
      (cut i : ℕ) (bs : List ℕ) (fs : Fs D)
      → IsMounted dev fs
      → CanDiscard cut i bs fs
      → Returns (Discarded cut i bs fs) (discard dev cut i bs fs)
  unfolding discard
  discard_lem cut i [] fs m c = record {
    mounted = m;
    size = refl;
    disk = refl;
    count = refl;
    entries = λ n. ground arith;
    unchanged = λ e. refl;
    freed = λ n p. absurd (p.2 refl);
    kept = λ c none. refl;
  }
  discard_lem cut i (b ∷ bs) fs m c = elim (Bool-cases (leb cut i && not (b == 0))) [
    | inl past ↦
        let head : IsPast cut i (b ∷ bs) 0 =
          (omega arith, ground (arith, past), λ e. ground (arith, past, e)) in
        rw past (
          Returns->>= (Frees b fs) (Discarded cut i (b ∷ bs) fs) (bfree dev b fs) _
            (bfree-Frees b fs m (c.used 0 head) head.2)
            (λ fs1 f.
              Returns->>= (Discarded cut (i + 1) bs fs1) (Discarded cut i (b ∷ bs) fs)
                (discard dev cut (i + 1) bs fs1) _
                (discard_lem cut (i + 1) bs fs1 f.mounted (CanDiscard-freed cut i b bs c head f))
                (λ r h. freed_head cut i b bs c head f r h)))
    | inr over ↦ rw over (
        Returns->>= (Discarded cut (i + 1) bs fs) (Discarded cut i (b ∷ bs) fs)
          (discard dev cut (i + 1) bs fs) _
          (discard_lem cut (i + 1) bs fs m (CanDiscard-tail cut i b bs c))
          (λ r h. skipped cut i b bs fs over r h))
  ]
