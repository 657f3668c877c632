-- ===== src/CowBrd/Requests.antt =====
-- code/cow_brd.c: brd_make_request. The result is the error that the request ends with, the
-- device, and what the memory of the request's segments holds then.
use Prim.Native.Nat.{bit_and}
use crashmonkey.Common.{
  ℕ, ◌+◌, ◌/◌, Bool, true, false, not, ◌&&◌, ◌||◌, ◌==◌, ltb, if◌then◌else◌, ◌>>=◌, Option, some,
  List, [], ◌∷◌,
}
use crashmonkey.CowBrd.{Page, RadixTree, BrdDevice, Errno, success, eio, is_error, sector_size}
use crashmonkey.CowBrd.Copy.{discard_from_brd, brd_do_bvec}

-- The block layer's names of the kernel built against: bio_end_sector of a sector and a size,
-- bio_rw, the values READ, READA and WRITE, and REQ_DISCARD.
pub record BlockLayer : Type 0 where
  pub bio_end_sector : ℕ → ℕ → ℕ
  pub bio_rw : ℕ → ℕ
  pub read : ℕ
  pub reada : ℕ
  pub write : ℕ
  pub req_discard : ℕ

-- A segment of a request: bv_len, and the memory from bv_offset of bv_page on.
pub record BioVec : Type 0 where
  pub bv_len : ℕ
  pub mem : Page

-- struct bio: BI_SECTOR, BI_SIZE, bi_rw and the segments of bio_for_each_segment.
pub record Bio : Type 0 where
  pub bi_sector : ℕ
  pub bi_size : ℕ
  pub bi_rw : ℕ
  pub segments : List BioVec

unfoldable pub any_flag : ℕ → ℕ → Bool
any_flag w flags = not (bit_and w flags == 0)

-- READA counts as READ.
unfoldable pub is_read : BlockLayer → Bio → Bool
is_read blk bio =
    let rw = blk.bio_rw bio.bi_rw in (if rw == blk.reada then blk.read else rw) == blk.read

module _ (radix : RadixTree) where
  -- bio_for_each_segment; `err` is what the variable holds before the loop.
  unfoldable pub do_segments :
      (ℕ → Bool)
      → Option radix.Tree
      → Bool
      → Errno
      → radix.Tree
      → ℕ
      → List BioVec
      → Option (Errno × radix.Tree × List BioVec)
  do_segments allocated parent read err t sector [] = some (err, t, [])
  do_segments allocated parent read err t sector (v ∷ vs) = do
    (err', t', mem') ← brd_do_bvec radix allocated parent t v.mem v.bv_len read sector
    let v' : BioVec = record { bv_len = v.bv_len; mem = mem' }
    elim (is_error err') [
      | true ↦ some (err', t', v' ∷ vs)
      | false ↦ do
        (err'', t'', vs') ←
            do_segments allocated parent read err' t' (sector + v.bv_len / sector_size) vs
        some (err'', t'', v' ∷ vs')
    ]

  unfoldable pub set_pages : BrdDevice radix → radix.Tree → BrdDevice radix
  set_pages brd t = record {
    brd_number = brd.brd_number;
    is_writable = brd.is_writable;
    is_snapshot = brd.is_snapshot;
    brd_pages = t;
    capacity = brd.capacity;
  }

  unfoldable pub brd_make_request :
      BlockLayer
      → (ℕ → Bool)
      → Option radix.Tree
      → BrdDevice radix
      → Bio
      → Option (Errno × BrdDevice radix × List BioVec)
  brd_make_request blk allocated parent brd bio =
      elim (ltb brd.capacity (blk.bio_end_sector bio.bi_sector bio.bi_size)) [
        | true ↦ some (eio, brd, bio.segments)
        | false ↦
            elim ((any_flag bio.bi_rw blk.write || any_flag bio.bi_rw blk.req_discard)
              && not brd.is_writable) [
                | true ↦ some (eio, brd, bio.segments)
                | false ↦ elim (any_flag bio.bi_rw blk.req_discard) [
                  | true ↦ some (
                    success,
                    set_pages brd (discard_from_brd radix brd.brd_pages bio.bi_sector bio.bi_size),
                    bio.segments,
                  )
                  | false ↦ do
                    (err, t, vs) ←
                        do_segments allocated parent (is_read blk bio) eio brd.brd_pages
                          bio.bi_sector bio.segments
                    some (err, set_pages brd t, vs)
                ]
              ]
      ]
