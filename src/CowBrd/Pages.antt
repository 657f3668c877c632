-- ===== src/CowBrd/Pages.antt =====
-- code/cow_brd.c: brd_lookup_page, brd_insert_page, brd_free_page, brd_zero_page and
-- brd_free_pages. `none` is a NULL page or, in brd_free_pages, a BUG_ON that fires; `allocated`
-- says of each index whether its page can be allocated.
use crashmonkey.Common.{
  ◌>>=◌, ℕ, zero, suc, ◌+◌, ◌-◌, ◌/◌, Bool, true, false, Option, none, some, List, [], ◌∷◌, length,
  leb, ltb, ◌==◌, ◌&&◌, if◌then◌else◌,
}
use crashmonkey.CowBrd.{Page, RadixTree, page_size, page_sectors}

unfoldable pub memcpy : (dst : Page) (start : ℕ) (src : Page) (n : ℕ) → Page
memcpy dst start src n k = if leb start k && ltb k (start + n) then src (k - start) else dst k

unfoldable pub zero_page : Page
zero_page k = 0

-- FREE_BATCH
abbrev pub free_batch : ℕ
free_batch = 16

module _ (radix : RadixTree) where
  unfoldable pub brd_lookup_page : radix.Tree → ℕ → Option Page
  brd_lookup_page t sector = radix.lookup t (sector / page_sectors)

  unfoldable pub new_page : Option radix.Tree → ℕ → Page
  new_page none sector = zero_page
  new_page (some parent) sector = elim (brd_lookup_page parent sector) [
    | none ↦ zero_page
    | some parent_src ↦ memcpy zero_page 0 parent_src page_size
  ]

  unfoldable pub brd_insert_page :
      (ℕ → Bool) → Option radix.Tree → radix.Tree → ℕ → Option radix.Tree
  brd_insert_page allocated parent t sector = elim (brd_lookup_page t sector) [
    | some page ↦ some t
    | none ↦
        if allocated (sector / page_sectors)
        then some (radix.put t (sector / page_sectors) (new_page parent sector))
        else none
  ]

  unfoldable pub brd_free_page : radix.Tree → ℕ → radix.Tree
  brd_free_page t sector = radix.delete t (sector / page_sectors)

  unfoldable pub brd_zero_page : radix.Tree → ℕ → radix.Tree
  brd_zero_page t sector = elim (brd_lookup_page t sector) [
    | none ↦ t
    | some page ↦ radix.put t (sector / page_sectors) zero_page
  ]

  -- The inner loop: the tree and `pos` behind it.
  unfoldable pub free_found : radix.Tree → ℕ → List ℕ → Option (radix.Tree × ℕ)
  free_found t pos [] = some (t, pos)
  free_found t pos (i ∷ is) = elim (ltb i pos) [
    | true ↦ none
    | false ↦ elim (radix.lookup t i) [
      | none ↦ none
      | some page ↦ free_found (radix.delete t i) i is
    ]
  ]

  unfoldable pub free_loop : ℕ → radix.Tree → ℕ → Option radix.Tree
  free_loop zero t pos = none
  free_loop (suc fuel) t pos = do
    let pages = radix.gang_lookup t pos free_batch
    (t', pos') ← free_found t pos pages
    elim (length pages == free_batch) [ true ↦ free_loop fuel t' (pos' + 1) | false ↦ some t' ]

  unfoldable pub brd_free_pages : radix.Tree → Option radix.Tree
  brd_free_pages t = free_loop (1 + radix.bound t) t 0
