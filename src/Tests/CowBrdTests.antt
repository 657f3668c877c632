-- ===== src/Tests/CowBrdTests.antt =====
-- The theorems on code/cow_brd.c at small devices.
use Prim.Native.Nat.{bit_and}
use crashmonkey.Common.{
  ℕ, ◌+◌, ◌/◌, ◌≡◌, refl, inl, inr, true, false, none, some, List, [], ◌∷◌, arith,
}
use crashmonkey.CowBrd.{Page, BrdDevice, Errno, success, eio, is_error}
use crashmonkey.CowBrd.Pages.{memcpy, new_page, brd_lookup_page, brd_insert_page}
use crashmonkey.CowBrd.Copy.{
  offset_of, first_copy, second_sector, copy_to_brd_setup, copy_to_brd, copy_from_brd, brd_do_bvec,
  write_segment,
}
use crashmonkey.CowBrd.Requests.{
  BlockLayer, BioVec, Bio, any_flag, is_read, do_segments, set_pages, brd_make_request,
}
use crashmonkey.CowBrd.Ioctl.{brd_ioctl, cow_brd_restore_snapshot, other}
use crashmonkey.CowBrd.View.{byte_at, parent_byte}
use crashmonkey.CowBrd.Transfers.{IsWritten}
use crashmonkey.CowBrd.Writes.{brd_do_bvec-IsWritten}
use crashmonkey.CowBrd.Reads.{copy_from_brd-byte, copy_from_brd-shifted}
use crashmonkey.CowBrd.Segments.{Fits, Written}
use crashmonkey.CowBrd.ReadAfterWrite.{
  Agree, SameShape, Accepted, brd_make_request-Written, read-after-write,
}
use crashmonkey.CowBrd.Frozen.{
  IsReadWithout, Steps, Frozen, request, ioctl, stop, more, Steps-Frozen,
}
use crashmonkey.CowBrd.Restore.{restore_snapshot-byte}
use crashmonkey.Tests.Slots.{Slots, lookup, put, slots, slots-IsRadixTree}

-- WRITE is 1, REQ_DISCARD is 128, and bio_rw keeps WRITE alone.
abbrev blk : BlockLayer
blk = record {
  bio_end_sector = λ sector n. sector + n / 512;
  bio_rw = λ w. bit_and w 1;
  read = 0;
  reada = 2;
  write = 1;
  req_discard = 128;
}

blk-IsReadWithout : IsReadWithout blk
unfolding IsReadWithout is_read any_flag
blk-IsReadWithout bio h = ground arith

abbrev counting : Page
counting k = k

abbrev parent_pages : Slots
parent_pages = some counting ∷ some counting ∷ []

abbrev own_pages : Slots
own_pages = none ∷ some counting ∷ []

abbrev snapshot : BrdDevice slots
snapshot = record {
  brd_number = 1;
  is_writable = true;
  is_snapshot = true;
  brd_pages = [];
  capacity = 64;
}

abbrev frozen_disk : BrdDevice slots
frozen_disk = record {
  brd_number = 0;
  is_writable = false;
  is_snapshot = false;
  brd_pages = parent_pages;
  capacity = 64;
}

abbrev segments : Page → List BioVec
segments mem = record { bv_len = 1024; mem = mem } ∷ record { bv_len = 512; mem = mem } ∷ []

abbrev writing : Bio
writing = record { bi_sector = 6; bi_size = 1536; bi_rw = 1; segments = segments (λ k. k + 7) }

abbrev reading : Bio
reading = record { bi_sector = 6; bi_size = 1536; bi_rw = 0; segments = segments (λ k. 0) }

brd_do_bvec-IsWritten_example :
    (err : Errno) × (t' : Slots) × (brd_do_bvec slots
        (λ i. true)
        (some parent_pages)
        []
        counting
        1024
        false
        7
      ≡ some (err, t', counting))
    × IsWritten slots slots-IsRadixTree (some parent_pages) [] 3584 counting 1024 err t'
unfolding lookup
brd_do_bvec-IsWritten_example =
    brd_do_bvec-IsWritten slots slots-IsRadixTree (λ i. true) (some parent_pages) [] counting 1024 7
      (omega arith) (inr (inl refl))

copy_from_brd-byte_example :
    copy_from_brd slots (λ k. 0) (some parent_pages) own_pages 7 1024 600
    ≡ memcpy (λ k. 0) 0 (λ j. byte_at slots (some parent_pages) own_pages (3584 + j)) 1024 600
unfolding lookup
copy_from_brd-byte_example =
    copy_from_brd-byte slots slots-IsRadixTree (λ k. 0) (some parent_pages) own_pages 7 1024 600
      (omega arith) (inr (inl (counting, refl)))

copy_from_brd-shifted_example :
    (copy_from_brd slots (λ k. 0) (some parent_pages) [] 7 1024 515 ≡ 3587)
    × (byte_at slots (some parent_pages) [] 4099 ≡ 3)
unfolding lookup offset_of
copy_from_brd-shifted_example =
    copy_from_brd-shifted slots slots-IsRadixTree (λ k. 0) parent_pages [] 7 1024 3 counting
      (omega arith) (omega arith) (omega arith) refl refl

restore_snapshot-byte_example :
    (t : Slots) × (brd_ioctl slots (set_pages slots snapshot own_pages) cow_brd_restore_snapshot
      ≡ some (success, set_pages slots (set_pages slots snapshot own_pages) t))
    × ((a : ℕ) → byte_at slots (some parent_pages) t a ≡ parent_byte slots (some parent_pages) a)
unfolding set_pages
restore_snapshot-byte_example =
    restore_snapshot-byte slots slots-IsRadixTree (some parent_pages)
      (set_pages slots snapshot own_pages) refl

writing-Accepted : Accepted slots blk snapshot writing false
unfolding any_flag is_read Fits offset_of
writing-Accepted = record {
  in_bounds = omega arith;
  allowed = refl;
  no_discard = refl;
  direction = refl;
  has_segments = omega arith;
  fits = (omega arith, refl, (omega arith, refl, tt));
}

brd_make_request-Written_example :
    (err : Errno) × (t : Slots) × (k : ℕ) × (brd_make_request slots blk
        (λ i. true)
        (some parent_pages)
        snapshot
        writing
      ≡ some (err, set_pages slots snapshot t, writing.segments))
    × Written slots slots-IsRadixTree (some parent_pages) [] 3072 writing.segments err t k
brd_make_request-Written_example =
    brd_make_request-Written slots slots-IsRadixTree blk (λ i. true) (some parent_pages) snapshot
      writing writing-Accepted

-- The snapshot's pages once the request is served.
abbrev written_pages : Slots
written_pages =
    some (memcpy (new_page slots (some parent_pages) 6) 3072 (λ k. k + 7) 1024)
    ∷ some (memcpy (new_page slots (some parent_pages) 8) 0 (λ k. k + 7) 512)
    ∷ []

abbrev written_snapshot : BrdDevice slots
written_snapshot = record {
  brd_number = 1;
  is_writable = true;
  is_snapshot = true;
  brd_pages = written_pages;
  capacity = 64;
}

writing-serves :
    brd_make_request slots blk (λ i. true) (some parent_pages) snapshot writing
    ≡ some (success, written_snapshot, writing.segments)
unfolding brd_make_request any_flag is_read do_segments brd_do_bvec write_segment copy_to_brd_setup
    copy_to_brd brd_insert_page brd_lookup_page offset_of first_copy second_sector is_error
    set_pages lookup put
writing-serves = refl

reading-Accepted : Accepted slots blk written_snapshot reading true
unfolding any_flag is_read Fits offset_of
reading-Accepted = record {
  in_bounds = omega arith;
  allowed = refl;
  no_discard = refl;
  direction = refl;
  has_segments = omega arith;
  fits = (omega arith, refl, (omega arith, refl, tt));
}

read-after-write_example :
    (ws : List BioVec) × (brd_make_request slots blk
        (λ i. true)
        (some parent_pages)
        written_snapshot
        reading
      ≡ some (success, written_snapshot, ws))
    × Agree ws writing.segments
unfolding SameShape
read-after-write_example =
    read-after-write slots slots-IsRadixTree blk (λ i. true) (some parent_pages) snapshot
      written_snapshot writing reading writing.segments writing-Accepted writing-serves
      reading-Accepted refl (refl, (refl, tt))

refused-Steps : Steps slots blk none frozen_disk frozen_disk
unfolding brd_make_request any_flag brd_ioctl
refused-Steps =
    more (request (λ i. true) writing eio writing.segments refl)
      (more (ioctl (other 3) Errno.enotty (λ e. cc) (λ e. cc) refl) stop)

Steps-Frozen_example : Frozen slots blk none frozen_disk frozen_disk
Steps-Frozen_example = Steps-Frozen slots blk none blk-IsReadWithout refused-Steps refl refl
