-- ===== src/CowBrd/Copy.antt =====
-- code/cow_brd.c: copy_to_brd_setup, discard_from_brd, copy_to_brd, copy_from_brd and
-- brd_do_bvec. `none` is a BUG_ON that fires.
use Prim.Native.Nat.{min}
use crashmonkey.Common.{
  ◌>>=◌, ℕ, zero, suc, ◌+◌, ◌-◌, ◌*◌, ◌/◌, ◌%◌, Bool, true, false, Option, none, some, ltb,
  if◌then◌else◌,
}
use crashmonkey.CowBrd.{
  Page, RadixTree, Errno, success, enomem, page_size, page_sectors, sector_size, is_error,
}
use crashmonkey.CowBrd.Pages.{memcpy, zero_page, brd_lookup_page, brd_insert_page, brd_zero_page}

-- Where a sector begins in its page, and how many of `n` bytes from there the page holds.
unfoldable pub offset_of : ℕ → ℕ
offset_of sector = (sector % page_sectors) * sector_size

unfoldable pub first_copy : ℕ → ℕ → ℕ
first_copy sector n = min n (page_size - offset_of sector)

unfoldable pub second_sector : ℕ → ℕ → ℕ
second_sector sector n = sector + first_copy sector n / sector_size

module _ (radix : RadixTree) where
  -- The tree is returned with the error, too: the first page may have been inserted.
  unfoldable pub copy_to_brd_setup :
      (ℕ → Bool) → Option radix.Tree → radix.Tree → ℕ → ℕ → Errno × radix.Tree
  copy_to_brd_setup allocated parent t sector n =
      elim (brd_insert_page radix allocated parent t sector) [
        | none ↦ (enomem, t)
        | some t1 ↦ elim (ltb (first_copy sector n) n) [
          | false ↦ (success, t1)
          | true ↦ elim (brd_insert_page radix allocated parent t1 (second_sector sector n)) [
            | none ↦ (enomem, t1)
            | some t2 ↦ (success, t2)
          ]
        ]
      ]

  unfoldable pub discard_loop : ℕ → radix.Tree → ℕ → radix.Tree
  discard_loop zero t sector = t
  discard_loop (suc pages) t sector =
      discard_loop pages (brd_zero_page radix t sector) (sector + page_size / sector_size)

  -- `while (n >= PAGE_SIZE)` with `n -= PAGE_SIZE` has `n / PAGE_SIZE` rounds.
  unfoldable pub discard_from_brd : radix.Tree → ℕ → ℕ → radix.Tree
  discard_from_brd t sector n = discard_loop (n / page_size) t sector

  unfoldable pub rest_of_parent : Option radix.Tree → ℕ → Page → ℕ → Page
  rest_of_parent none sector page copy = page
  rest_of_parent (some parent) sector page copy = elim (brd_lookup_page radix parent sector) [
    | none ↦ page
    | some parent_src ↦ memcpy page copy (λ k. parent_src (copy + k)) (page_size - copy)
  ]

  unfoldable pub copy_to_second : Option radix.Tree → radix.Tree → Page → ℕ → ℕ → Option radix.Tree
  copy_to_second parent t src sector copy = do
    page ← brd_lookup_page radix t sector
    some (
        radix.put t (sector / page_sectors)
          (memcpy (rest_of_parent parent sector page copy) 0 src copy))

  unfoldable pub copy_to_brd : Option radix.Tree → radix.Tree → Page → ℕ → ℕ → Option radix.Tree
  copy_to_brd parent t src sector n = do
    let copy = first_copy sector n
    page ← brd_lookup_page radix t sector
    let t1 = radix.put t (sector / page_sectors) (memcpy page (offset_of sector) src copy)
    elim (ltb copy n) [
      | false ↦ some t1
      | true ↦ copy_to_second parent t1 (λ k. src (copy + k)) (second_sector sector n) (n - copy)
    ]

  -- What the page of the parent gives, and zeros where it has none.
  unfoldable pub parent_source : Option radix.Tree → ℕ → ℕ → Page
  parent_source none sector offset = zero_page
  parent_source (some parent) sector offset = elim (brd_lookup_page radix parent sector) [
    | none ↦ zero_page
    | some src ↦ λ k. src (offset + k)
  ]

  unfoldable pub first_source : Option radix.Tree → radix.Tree → ℕ → ℕ → Page
  first_source parent t sector offset = elim (brd_lookup_page radix t sector) [
    | none ↦ parent_source parent sector offset
    | some src ↦ λ k. src (offset + k)
  ]

  -- The second part: the parent's page is read from `offset` on, the device's own from its start.
  unfoldable pub second_source : Option radix.Tree → radix.Tree → ℕ → ℕ → Page
  second_source parent t sector offset = elim (brd_lookup_page radix t sector) [
    | none ↦ parent_source parent sector offset
    | some src ↦ src
  ]

  unfoldable pub copy_from_brd : Page → Option radix.Tree → radix.Tree → ℕ → ℕ → Page
  copy_from_brd dst parent t sector n =
      let copy = first_copy sector n in
      let dst1 = memcpy dst 0 (first_source parent t sector (offset_of sector)) copy in
      if ltb copy n
      then memcpy dst1 copy (second_source parent t (second_sector sector n) (offset_of sector))
          (n - copy)
      else dst1

  -- `mem` is the segment's memory, from bv_offset of its page on; `read` is `rw == READ`.
  unfoldable pub write_segment :
      Option radix.Tree → Page → ℕ → ℕ → Errno × radix.Tree → Option (Errno × radix.Tree × Page)
  write_segment parent mem len sector (err, t) = elim (is_error err) [
    | true ↦ some (err, t, mem)
    | false ↦ do t' ← copy_to_brd parent t mem sector len; some (err, t', mem)
  ]

  unfoldable pub brd_do_bvec :
      (ℕ → Bool)
      → Option radix.Tree
      → radix.Tree
      → Page
      → ℕ
      → Bool
      → ℕ
      → Option (Errno × radix.Tree × Page)
  brd_do_bvec allocated parent t mem len true sector =
      some (success, t, copy_from_brd mem parent t sector len)
  brd_do_bvec allocated parent t mem len false sector =
      write_segment parent mem len sector (copy_to_brd_setup allocated parent t sector len)
