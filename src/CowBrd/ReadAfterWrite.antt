-- ===== src/CowBrd/ReadAfterWrite.antt =====
-- code/cow_brd.c, brd_make_request from end to end: a request that writes, and one that reads the
-- same sectors afterwards.
use mathlib.Core.Option.{some-injective}
use crashmonkey.Common.{
  ℕ, ◌+◌, ◌*◌, ◌/◌, ◌≤◌, ◌<◌, ◌≡◌, ◌≢◌, refl, sym, ap, ◌∙◌, inl, inr, Bool, true, false, not, ◌&&◌,
  ◌||◌, Option, some, List, [], ◌∷◌, length, take, ltb, arith,
}
use crashmonkey.CowBrd.{
  Page, RadixTree, IsRadixTree, BrdDevice, Errno, success, eio, enomem, is_error, sector_size,
}
use crashmonkey.CowBrd.Pages.{}
use crashmonkey.CowBrd.Copy.{copy_from_brd, brd_do_bvec}
use crashmonkey.CowBrd.Requests.{
  BlockLayer, BioVec, Bio, any_flag, is_read, do_segments, set_pages, brd_make_request,
}
use crashmonkey.CowBrd.View.{byte_at, memcpy-inside}
use crashmonkey.CowBrd.Reads.{copy_from_brd-byte}
use crashmonkey.CowBrd.Segments.{
  Fits, Holds, write_all, write_all-Holds, next_sector, Written, do_segments-Written,
}

-- Two lists of segments are as long and hold the same bytes.
unfoldable pub Agree : List BioVec → List BioVec → Type 0
Agree [] [] = Unit
Agree [] (w ∷ ws) = ⊥
Agree (v ∷ vs) [] = ⊥
Agree (v ∷ vs) (w ∷ ws) = ((j : ℕ) → j < v.bv_len → v.mem j ≡ w.mem j) × Agree vs ws

-- As many segments of the same lengths.
unfoldable pub SameShape : List BioVec → List BioVec → Type 0
SameShape [] [] = Unit
SameShape [] (w ∷ ws) = ⊥
SameShape (v ∷ vs) [] = ⊥
SameShape (v ∷ vs) (w ∷ ws) = (v.bv_len ≡ w.bv_len) × SameShape vs ws

Fits-SameShape :
    (sector : ℕ) (vs ws : List BioVec) → SameShape vs ws → Fits sector ws → Fits sector vs
unfolding Fits SameShape
Fits-SameShape sector [] [] h f = tt
Fits-SameShape sector [] (w ∷ ws) h f = elim h [ ]
Fits-SameShape sector (v ∷ vs) [] h f = elim h [ ]
Fits-SameShape sector (v ∷ vs) (w ∷ ws) (e, h) f =
    rw (e) (f.0, f.1, Fits-SameShape (sector + w.bv_len / sector_size) vs ws h f.2)

Agree-Holds :
    (d : Page) (start : ℕ) (vs ws : List BioVec)
    → SameShape vs ws
    → Holds d start vs
    → Holds d start ws
    → Agree vs ws
unfolding Holds SameShape Agree
Agree-Holds d start [] [] h f g = tt
Agree-Holds d start [] (w ∷ ws) h f g = h
Agree-Holds d start (v ∷ vs) [] h f g = h
Agree-Holds d start (v ∷ vs) (w ∷ ws) (e, h) f g = (
  λ j lt. f.0 j lt ∙ sym (g.0 j (omega arith)),
  Agree-Holds d (start + v.bv_len) vs ws h f.1 (rw (e) g.1),
)

Holds-cong :
    (d e : Page) (start : ℕ) (vs : List BioVec)
    → ((a : ℕ) → d a ≡ e a)
    → Holds d start vs
    → Holds e start vs
unfolding Holds
Holds-cong d e start [] h f = tt
Holds-cong d e start (v ∷ vs) h f =
    (λ j lt. f.0 j lt ∙ h (start + j), Holds-cong d e (start + v.bv_len) vs h f.1)

SameShape-trans : (us vs ws : List BioVec) → SameShape us vs → SameShape vs ws → SameShape us ws
unfolding SameShape
SameShape-trans [] [] ws h g = g
SameShape-trans [] (v ∷ vs) ws h g = elim h [ ]
SameShape-trans (u ∷ us) [] ws h g = elim h [ ]
SameShape-trans (u ∷ us) (v ∷ vs) [] h g = g
SameShape-trans (u ∷ us) (v ∷ vs) (w ∷ ws) h g = (h.0 ∙ g.0, SameShape-trans us vs ws h.1 g.1)

success-ne-enomem : success ≢ enomem
success-ne-enomem h = cc

-- A request that comes as far as its segments, which fit.
pub record Accepted (radix : RadixTree) (blk : BlockLayer) (brd : BrdDevice radix) (bio : Bio)
    (read : Bool) : Type 0 where
  pub in_bounds : blk.bio_end_sector bio.bi_sector bio.bi_size ≤ brd.capacity
  pub allowed :
      ((any_flag bio.bi_rw blk.write || any_flag bio.bi_rw blk.req_discard) && not brd.is_writable)
      ≡ false
  pub no_discard : any_flag bio.bi_rw blk.req_discard ≡ false
  pub direction : is_read blk bio ≡ read
  pub has_segments : 0 < length bio.segments
  pub fits : Fits bio.bi_sector bio.segments

module _ (radix : RadixTree) (laws : IsRadixTree radix) where
  do_segments-start :
      (allocated : ℕ → Bool) (parent : Option radix.Tree) (read : Bool) (err err' : Errno)
      (t : radix.Tree) (sector : ℕ) (vs : List BioVec)
      → 0 < length vs
      → do_segments radix allocated parent read err t sector vs
        ≡ do_segments radix allocated parent read err' t sector vs
  unfolding do_segments
  do_segments-start allocated parent read err err' t sector [] h = elim h [ ]
  do_segments-start allocated parent read err err' t sector (v ∷ vs) h = refl

  request-segments :
      (blk : BlockLayer) (allocated : ℕ → Bool) (parent : Option radix.Tree) (brd : BrdDevice radix)
      (bio : Bio) (read : Bool) {err : Errno} {t : radix.Tree} {vs : List BioVec}
      → Accepted radix blk brd bio read
      → do_segments radix allocated parent read success brd.brd_pages bio.bi_sector bio.segments
        ≡ some (err, t, vs)
      → brd_make_request radix blk allocated parent brd bio ≡ some (err, set_pages radix brd t, vs)
  unfolding brd_make_request
  request-segments blk allocated parent brd bio read ok e =
      let inside : ltb brd.capacity (blk.bio_end_sector bio.bi_sector bio.bi_size) ≡ false =
        ground (arith, ok.in_bounds) in
      rw
        (
          inside,
          ok.allowed,
          ok.no_discard,
          ok.direction,
          do_segments-start allocated parent read eio success brd.brd_pages bio.bi_sector
              bio.segments ok.has_segments,
          e,
          brd_make_request,
        )
        refl

  -- The loop that reads.
  do_segments-Holds :
      (allocated : ℕ → Bool) (parent : Option radix.Tree) (t : radix.Tree) (sector : ℕ)
      (vs : List BioVec)
      → Fits sector vs
      → (ws : List BioVec) × (do_segments radix allocated parent true success t sector vs
          ≡ some (success, t, ws))
        × SameShape ws vs
        × Holds (byte_at radix parent t) (sector * sector_size) ws
  unfolding Fits do_segments brd_do_bvec is_error SameShape Holds
  do_segments-Holds allocated parent t sector [] fits = ([], refl, tt, tt)
  do_segments-Holds allocated parent t sector (v ∷ vs) fits =
      let (ws, e, shape, holds) =
        do_segments-Holds allocated parent t (sector + v.bv_len / sector_size) vs fits.2 in
      let mem' = copy_from_brd radix v.mem parent t sector v.bv_len in
      let w : BioVec = record { bv_len = v.bv_len; mem = mem' } in
      (
        w ∷ ws,
        rw (e) refl,
        (refl, shape),
        (
          λ j lt.
              copy_from_brd-byte radix laws v.mem parent t sector v.bv_len j (omega (arith, fits.0))
                (inl fits.0)
              ∙ memcpy-inside v.mem 0 _ v.bv_len {j = j} (omega arith) lt,
          rw (sym (next_sector sector v.bv_len fits.1)) holds,
        ),
      )

  -- A request that writes and is not refused by the checks of brd_make_request returns without a
  -- BUG_ON, whatever can be allocated: it ends with success and all its segments written into the
  -- flat content of the device, or with ENOMEM, and in any case the content is the old one with
  -- some first k segments written one behind the other; the segments are whole sectors, each
  -- inside one page.
  pub brd_make_request-Written :
      (blk : BlockLayer) (allocated : ℕ → Bool) (parent : Option radix.Tree) (brd : BrdDevice radix)
      (bio : Bio)
      → Accepted radix blk brd bio false
      → (err : Errno) × (t : radix.Tree) × (k : ℕ) × (brd_make_request radix blk allocated parent
            brd bio
          ≡ some (err, set_pages radix brd t, bio.segments))
        × Written radix laws parent brd.brd_pages (bio.bi_sector * sector_size) bio.segments err t k
  brd_make_request-Written blk allocated parent brd bio ok =
      let (err, t, k, e, written) =
        do_segments-Written radix laws allocated parent brd.brd_pages bio.bi_sector bio.segments
          ok.fits in
      (err, t, k, request-segments blk allocated parent brd bio false ok e, written)

  brd_make_request-Holds :
      (blk : BlockLayer) (allocated : ℕ → Bool) (parent : Option radix.Tree) (brd : BrdDevice radix)
      (bio : Bio)
      → Accepted radix blk brd bio true
      → (ws : List BioVec) × (brd_make_request radix blk allocated parent brd bio
          ≡ some (success, set_pages radix brd brd.brd_pages, ws))
        × SameShape ws bio.segments
        × Holds (byte_at radix parent brd.brd_pages) (bio.bi_sector * sector_size) ws
  brd_make_request-Holds blk allocated parent brd bio ok =
      let (ws, e, shape, holds) =
        do_segments-Holds allocated parent brd.brd_pages bio.bi_sector bio.segments ok.fits in
      (ws, request-segments blk allocated parent brd bio true ok e, shape, holds)

  -- What a request wrote with success to a cow_brd device, a request that reads as many segments
  -- of the same lengths from the same sector returns, with success and the device as it was, byte
  -- for byte; the segments are whole sectors, each inside one page, neither request is refused by
  -- brd_make_request's checks, and the page tree keeps the laws of linux/radix-tree.h.
  pub read-after-write :
      (blk : BlockLayer) (allocated : ℕ → Bool) (parent : Option radix.Tree)
      (brd brd' : BrdDevice radix) (w r : Bio) (vs : List BioVec)
      → Accepted radix blk brd w false
      → brd_make_request radix blk allocated parent brd w ≡ some (success, brd', vs)
      → Accepted radix blk brd' r true
      → r.bi_sector ≡ w.bi_sector
      → SameShape r.segments w.segments
      → (ws : List BioVec) × (brd_make_request radix blk allocated parent brd' r
          ≡ some (success, brd', ws))
        × Agree ws w.segments
  unfolding set_pages
  read-after-write blk allocated parent brd brd' w r vs okw e okr at shape =
      let (err, t, k, e', written) = brd_make_request-Written blk allocated parent brd w okw in
      let same = some-injective _ _ (sym e' ∙ e) in
      let pages : brd'.brd_pages ≡ t = sym (ap (λ x. x.1.brd_pages) same) in
      let (ws, e'', shape', holds) = brd_make_request-Holds blk allocated parent brd' r okr in
      let all : take k w.segments ≡ w.segments = elim written.ended [
        | inl (ok, all) ↦ all
        | inr no_memory ↦ absurd (success-ne-enomem (sym (ap (λ x. x.0) same) ∙ no_memory))
      ] in
      let start = w.bi_sector * sector_size in
      (
        ws,
        e'',
        Agree-Holds (byte_at radix parent brd'.brd_pages) (r.bi_sector * sector_size) ws w.segments
            (SameShape-trans ws r.segments w.segments shape' shape) holds
            (rw (at, pages)
              (Holds-cong (write_all (byte_at radix parent brd.brd_pages) start w.segments)
                (byte_at radix parent t) start w.segments
                (λ a. sym (
                  written.bytes a
                  ∙ ap (λ x. write_all (byte_at radix parent brd.brd_pages) start x a) all))
                (write_all-Holds _ start w.segments))),
      )
