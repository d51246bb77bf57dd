-- ===== src/Sfs/Extend.antt =====
-- sfs_bmap of src/kern/fs/sfs/sfs_bmap.c with allocation.
use native.Mathlib.Decide.{dec_lt}
use ed_operating_system.Prelude.{
  ℕ, subst, ◌-◌, ◌<◌, ◌≡◌, ◌≢◌, inl, inr, refl, ap, sym, ◌∙◌, true, length, get_or, replicate, set,
  length-set, get_or-set_self, get_or-set_ne, ◌==◌, if◌then◌else◌, lt→ltb, le→ltb, ==_iff, ==-ne,
  Bool-cases, Result, ok, err, Returns, Returns->>=, arith,
}
use ed_operating_system.Sfs.{Vnode, Fs, ndirect, dbperidb, balloc}
use ed_operating_system.Sfs.Disk.{Device}
use ed_operating_system.Sfs.Alloc.{IsMounted, Grows, Grows-refl, OnDisk, BallocPost, balloc_lem}
use ed_operating_system.Sfs.Mapping.{
  max_blocks, InUse, file_block, IsMapped, GrowsBut, Grows-GrowsBut, Places, Places-IsMapped,
}
use ed_operating_system.Sfs.Lookup.{hand_back_lem, direct_block}
use ed_operating_system.Sfs.Bmap.{hand_back, direct_got, bmap_direct}

module _ {D : Type 0} (dev : Device D) where
  pub OnDisk-IsMounted : {fs fs' : Fs D} → OnDisk dev fs fs' → IsMounted dev fs → IsMounted dev fs'
  OnDisk-IsMounted {fs} {fs'} on m = record {
    valid = rw on.map_kept m.valid;
    boot = rw on.map_kept m.boot;
    tail = λ b lo hi.
        rw on.map_kept (
          m.tail b (omega (arith, on.size_kept))
            (omega (arith, hi, ap (λ f. f.nbits) on.map_kept)));
    covers = rw (on.map_kept, on.size_kept) m.covers;
    fits = rw on.size_kept m.fits;
  }

  -- The result of sfs_bmap when it may allocate.
  abbrev pub ExtendPost : Vnode → Fs D → ℕ → Result ℕ × Vnode × Fs D → Type 0
  ExtendPost v fs k (ok b, v', fs') =
      (k < max_blocks)
      × (b ≢ 0)
      × (file_block dev v fs.disk k ≢ 0 → b ≡ file_block dev v fs.disk k)
      × (file_block dev v fs.disk k ≡ 0 → dev.contents fs'.disk b ≡ replicate dbperidb 0)
      × ((v'.inode.size ≡ v.inode.size) × (v'.inode.kind ≡ v.inode.kind))
      × ((j : ℕ)
          → j < max_blocks
          → file_block dev v' fs'.disk j ≡ (if k == j then b else file_block dev v fs.disk j))
      × IsMapped dev fs' v'
      × GrowsBut dev v.inode.indirect fs fs'
  ExtendPost v fs k (err e, v', fs') = GrowsBut dev v.inode.indirect fs fs'

  module _ (v : Vnode) (fs : Fs D) (m : IsMapped dev fs v) (mounted : IsMounted dev fs) where
    -- There is a block already.
    pub present :
        (k b : ℕ)
        → k < max_blocks
        → b ≡ file_block dev v fs.disk k
        → b ≢ 0
        → Returns (ExtendPost v fs k) (hand_back dev v fs b)
    present k b lt e nz =
        rw
          (hand_back_lem dev v fs b
            (λ z. subst (InUse fs) (sym e) (m.blocks_used k lt (λ w. nz (e ∙ w)))))
          (
            lt,
            nz,
            λ z. e,
            λ z. absurd (nz (e ∙ z)),
            (refl, refl),
            λ j hj. elim (Bool-cases (k == j)) [
              | inl same ↦
                  rw same (ap (file_block dev v fs.disk) (sym ((==_iff k j).0 same)) ∙ sym e)
              | inr other ↦ rw other
            ],
            m,
            Grows-GrowsBut dev v.inode.indirect (Grows-refl dev fs mounted),
          )

    -- A new block was put in its place.
    pub placed :
        (k b : ℕ)
        → k < max_blocks
        → file_block dev v fs.disk k ≡ 0
        → (v' : Vnode) (fs' : Fs D) → Places dev fs fs' v v' k b
        → GrowsBut dev v.inode.indirect fs fs'
        → Returns (ExtendPost v fs k) (hand_back dev v' fs' b)
    placed k b lt z v' fs' p g = rw (hand_back_lem dev v' fs' b (λ nz. p.taken)) (
      lt,
      p.some_block,
      λ nz. absurd (nz z),
      λ z'. p.zeroed,
      p.same_head,
      p.only,
      Places-IsMapped dev m p,
      g,
    )

    -- The map with a direct block set.
    set_direct :
        (k b : ℕ)
        → k < ndirect
        → (fs' : Fs D) → Grows dev fs fs'
        → (j : ℕ) → j < max_blocks
        → file_block dev
            (record { inode = record v.inode { direct = set v.inode.direct k b }; dirty = true })
            fs'.disk
            j
          ≡ (if k == j then b else file_block dev v fs.disk j)
    unfolding file_block
    set_direct k b lt fs' g j hj = elim (dec_lt j ndirect) [
      | yes low ↦ rw (lt→ltb j ndirect low) (elim (Bool-cases (k == j)) [
        | inl e ↦
            rw (e, ← (==_iff k j).0 e)
              (get_or-set_self v.inode.direct k b 0 (omega (arith, m.directs)))
        | inr d ↦ rw d (get_or-set_ne v.inode.direct k j b 0 (λ e. ground arith))
      ])
      | no high ↦
          rw (le→ltb j ndirect (omega arith), ==-ne k j (λ e. omega arith))
            (elim (Bool-cases (v.inode.indirect == 0)) [
              | inl z ↦ rw z
              | inr nz ↦ rw nz (
                  ap (λ w. get_or w (j - ndirect) 0)
                    (g.kept v.inode.indirect (m.indirect_used (λ z. ground arith)).1))
            ])
    ]

    direct_got-ExtendPost :
        (k : ℕ)
        → k < ndirect
        → file_block dev v fs.disk k ≡ 0
        → (r : Result ℕ × Fs D) → BallocPost dev fs r
        → Returns (ExtendPost v fs k) (direct_got dev v k r)
    unfolding direct_got
    direct_got-ExtendPost k lt z (err e, fs') (same, g) = Grows-GrowsBut dev v.inode.indirect g
    direct_got-ExtendPost k lt z (ok b, fs') (nz, below, free, marked, zeros, g) =
        let v' : Vnode = record {
          inode = record v.inode { direct = set v.inode.direct k b };
          dirty = true;
        } in
        placed k b (omega arith) z v' fs'
          (record {
            used = g.used;
            size = g.size;
            fresh = free;
            taken = (omega (arith, g.size), ground (arith, marked b));
            some_block = nz;
            zeroed = zeros;
            same_head = (refl, refl);
            directs = length-set v.inode.direct k b ∙ m.directs;
            indirects =
                λ i. ap length (g.kept v.inode.indirect (m.indirect_used i).1) ∙ m.indirects i;
            indirect = refl;
            only = set_direct k b lt fs' g;
          })
          (Grows-GrowsBut dev v.inode.indirect g)

    pub bmap_direct-ExtendPost :
        (k : ℕ) → k < ndirect → Returns (ExtendPost v fs k) (bmap_direct dev v fs k true)
    unfolding bmap_direct
    bmap_direct-ExtendPost k lt = elim (Bool-cases (get_or v.inode.direct k 0 == 0)) [
      | inl z ↦ rw z (
          Returns->>= (BallocPost dev fs) (ExtendPost v fs k) (balloc dev fs) (direct_got dev v k)
            (balloc_lem dev fs mounted)
            (λ r h.
              direct_got-ExtendPost k lt
                (sym (direct_block dev v fs m mounted k lt) ∙ (==_iff _ _).0 z) r h))
      | inr nz ↦ rw nz (
          present k (get_or v.inode.direct k 0) (omega arith) (direct_block dev v fs m mounted k lt)
            (λ z. ground arith))
    ]
