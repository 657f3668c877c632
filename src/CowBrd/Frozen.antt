-- ===== src/CowBrd/Frozen.antt =====
-- code/cow_brd.c, a disk between COW_BRD_SNAPSHOT and COW_BRD_UNSNAPSHOT: requests and ioctls as steps.
use mathlib.Core.Option.{some-injective}
use crashmonkey.Common.{
  ℕ, ◌+◌, ◌/◌, ◌≡◌, ◌≢◌, refl, sym, ap, ◌∙◌, inl, inr, Bool, true, false, not, ◌&&◌, ◌||◌, Option,
  some, List, [], ◌∷◌, ltb, Bool-cases,
}
use mathlib.Core.Path.{subst}
use crashmonkey.CowBrd.{RadixTree, BrdDevice, Errno, success, eio, enotty, is_error, sector_size}
use crashmonkey.CowBrd.Copy.{copy_from_brd, brd_do_bvec}
use crashmonkey.CowBrd.Requests.{
  BlockLayer, BioVec, Bio, any_flag, is_read, do_segments, set_pages, brd_make_request,
}
use crashmonkey.CowBrd.Ioctl.{
  Command, brd_ioctl, cow_brd_snapshot, cow_brd_unsnapshot, cow_brd_restore_snapshot, cow_brd_wipe,
  other, set_writable, free_all,
}

-- bio_rw of a word without the flag WRITE is READ or READA.
unfoldable pub IsReadWithout : BlockLayer → Type 0
IsReadWithout blk = (bio : Bio) → any_flag bio.bi_rw blk.write ≡ false → is_read blk bio ≡ true

module _ (radix : RadixTree) (blk : BlockLayer) (parent : Option radix.Tree) where
  -- What happens to a device: a request, with the allocations that succeed while it runs, or an
  -- ioctl, each of which returns.
  pub data Step : BrdDevice radix → BrdDevice radix → Type 0 where
    request :
        {brd brd' : BrdDevice radix} (allocated : ℕ → Bool) (bio : Bio) (err : Errno)
        (vs : List BioVec)
        → brd_make_request radix blk allocated parent brd bio ≡ some (err, brd', vs)
        → Step brd brd'
    ioctl :
        {brd brd' : BrdDevice radix} (c : Command) (err : Errno)
        → c ≢ cow_brd_unsnapshot
        → c ≢ cow_brd_wipe
        → brd_ioctl radix brd c ≡ some (err, brd')
        → Step brd brd'

  pub data Steps : BrdDevice radix → BrdDevice radix → Type 0 where
    stop : {brd : BrdDevice radix} → Steps brd brd
    more : {brd brd' brd'' : BrdDevice radix} → Step brd brd' → Steps brd' brd'' → Steps brd brd''

  -- A base disk that is not writable.
  pub record Frozen (brd brd' : BrdDevice radix) : Type 0 where
    pub same_pages : brd'.brd_pages ≡ brd.brd_pages
    pub still_frozen : brd'.is_writable ≡ false
    pub still_base : brd'.is_snapshot ≡ false

  read-pages :
      (allocated : ℕ → Bool) (err : Errno) (t : radix.Tree) (sector : ℕ) (vs : List BioVec)
      → (err' : Errno) × (ws : List BioVec) × (do_segments radix allocated parent true err t sector
            vs
          ≡ some (err', t, ws))
  unfolding do_segments brd_do_bvec is_error
  read-pages allocated err t sector [] = (err, [], refl)
  read-pages allocated err t sector (v ∷ vs) =
      let (err', ws, e) = read-pages allocated success t (sector + v.bv_len / sector_size) vs in
      (
        err',
        record { bv_len = v.bv_len; mem = copy_from_brd radix v.mem parent t sector v.bv_len } ∷ ws,
        rw (e) refl,
      )

  -- The device that a request leaves.
  abbrev Leaves : (ℕ → Bool) → BrdDevice radix → Bio → BrdDevice radix → Type 0
  Leaves allocated brd bio brd' =
      (err : Errno) × (vs : List BioVec) × (brd_make_request radix blk allocated parent brd bio
        ≡ some (err, brd', vs))

  request-past_end :
      (allocated : ℕ → Bool) (brd : BrdDevice radix) (bio : Bio)
      → ltb brd.capacity (blk.bio_end_sector bio.bi_sector bio.bi_size) ≡ true
      → Leaves allocated brd bio brd
  unfolding brd_make_request
  request-past_end allocated brd bio past = (eio, bio.segments, rw (past, brd_make_request) refl)

  request-refused :
      (allocated : ℕ → Bool) (brd : BrdDevice radix) (bio : Bio)
      → ltb brd.capacity (blk.bio_end_sector bio.bi_sector bio.bi_size) ≡ false
      → brd.is_writable ≡ false
      → (any_flag bio.bi_rw blk.write || any_flag bio.bi_rw blk.req_discard) ≡ true
      → Leaves allocated brd bio brd
  unfolding brd_make_request
  request-refused allocated brd bio inside frozen flag =
      let refused : ((any_flag bio.bi_rw blk.write || any_flag bio.bi_rw blk.req_discard)
            && not brd.is_writable)
          ≡ true =
        rw (flag, frozen) refl in
      (eio, bio.segments, rw (inside, refused, brd_make_request) refl)

  request-reads :
      (allocated : ℕ → Bool) (brd : BrdDevice radix) (bio : Bio)
      → ltb brd.capacity (blk.bio_end_sector bio.bi_sector bio.bi_size) ≡ false
      → any_flag bio.bi_rw blk.write ≡ false
      → any_flag bio.bi_rw blk.req_discard ≡ false
      → is_read blk bio ≡ true
      → Leaves allocated brd bio (set_pages radix brd brd.brd_pages)
  unfolding brd_make_request
  request-reads allocated brd bio inside no_write no_discard reads =
      let (err, ws, e) = read-pages allocated eio brd.brd_pages bio.bi_sector bio.segments in
      let allowed : ((any_flag bio.bi_rw blk.write || any_flag bio.bi_rw blk.req_discard)
            && not brd.is_writable)
          ≡ false =
        rw (no_write, no_discard) refl in
      (err, ws, rw (inside, allowed, no_discard, reads, e, brd_make_request) refl)

  refl-Frozen :
      (brd : BrdDevice radix) → brd.is_writable ≡ false → brd.is_snapshot ≡ false → Frozen brd brd
  refl-Frozen brd w s = record { same_pages = refl; still_frozen = w; still_base = s }

  request-Frozen :
      IsReadWithout blk
      → (allocated : ℕ → Bool) (brd : BrdDevice radix) (bio : Bio) → brd.is_writable ≡ false
      → brd.is_snapshot ≡ false
      → (brd' : BrdDevice radix) × Leaves allocated brd bio brd' × Frozen brd brd'
  unfolding set_pages IsReadWithout
  request-Frozen law allocated brd bio w s =
      elim (Bool-cases (ltb brd.capacity (blk.bio_end_sector bio.bi_sector bio.bi_size))) [
        | inl past ↦ (brd, request-past_end allocated brd bio past, refl-Frozen brd w s)
        | inr inside ↦ elim (Bool-cases (any_flag bio.bi_rw blk.write)) [
          | inl write ↦ (
            brd,
            request-refused allocated brd bio inside w (rw (write) refl),
            refl-Frozen brd w s,
          )
          | inr no_write ↦ elim (Bool-cases (any_flag bio.bi_rw blk.req_discard)) [
            | inl discard ↦ (
              brd,
              request-refused allocated brd bio inside w (rw (no_write, discard) refl),
              refl-Frozen brd w s,
            )
            | inr no_discard ↦ (
              set_pages radix brd brd.brd_pages,
              request-reads allocated brd bio inside no_write no_discard (law bio no_write),
              record { same_pages = refl; still_frozen = w; still_base = s },
            )
          ]
        ]
      ]

  ioctl-Frozen :
      (brd : BrdDevice radix) (c : Command)
      → c ≢ cow_brd_unsnapshot
      → c ≢ cow_brd_wipe
      → brd.is_writable ≡ false
      → brd.is_snapshot ≡ false
      → (brd' : BrdDevice radix) × ((err : Errno) × (brd_ioctl radix brd c ≡ some (err, brd')))
        × Frozen brd brd'
  unfolding brd_ioctl set_writable
  ioctl-Frozen brd cow_brd_snapshot h h' w s = (
    set_writable radix brd false,
    (
      success,
      ap
          (λ b. elim b [
            | true ↦ some (enotty, brd)
            | false ↦ some (success, set_writable radix brd false)
          ])
          s,
    ),
    record { same_pages = refl; still_frozen = refl; still_base = s },
  )
  ioctl-Frozen brd cow_brd_unsnapshot h h' w s = absurd (h refl)
  ioctl-Frozen brd cow_brd_restore_snapshot h h' w s = (
    brd,
    (enotty, ap (λ b. elim b [ true ↦ free_all radix brd | false ↦ some (enotty, brd) ]) s),
    refl-Frozen brd w s,
  )
  ioctl-Frozen brd cow_brd_wipe h h' w s = absurd (h' refl)
  ioctl-Frozen brd (other n) h h' w s = (brd, (enotty, refl), refl-Frozen brd w s)

  step-Frozen :
      IsReadWithout blk
      → {brd brd' : BrdDevice radix} → Step brd brd'
      → brd.is_writable ≡ false
      → brd.is_snapshot ≡ false
      → Frozen brd brd'
  step-Frozen law {brd = brd} (request allocated bio err vs e) w s =
      let (brd1, (err1, vs1, e1), frozen) = request-Frozen law allocated brd bio w s in
      subst (Frozen brd) (ap (λ x. x.1) (some-injective _ _ (sym e1 ∙ e))) frozen
  step-Frozen law {brd = brd} (ioctl c err h h' e) w s =
      let (brd1, (err1, e1), frozen) = ioctl-Frozen brd c h h' w s in
      subst (Frozen brd) (ap (λ x. x.1) (some-injective _ _ (sym e1 ∙ e))) frozen

  -- Through any requests and ioctls but COW_BRD_UNSNAPSHOT and COW_BRD_WIPE, a disk that is no
  -- snapshot and not writable keeps its pages and stays not writable, if bio_rw of a word without
  -- the flag WRITE is READ or READA.
  pub Steps-Frozen :
      IsReadWithout blk
      → {brd brd' : BrdDevice radix} → Steps brd brd'
      → brd.is_writable ≡ false
      → brd.is_snapshot ≡ false
      → Frozen brd brd'
  Steps-Frozen law {brd = brd} stop w s = refl-Frozen brd w s
  Steps-Frozen law (more step steps) w s =
      let one = step-Frozen law step w s in
      let rest = Steps-Frozen law steps one.still_frozen one.still_base in
      record {
        same_pages = rest.same_pages ∙ one.same_pages;
        still_frozen = rest.still_frozen;
        still_base = rest.still_base;
      }
