-- ===== src/CowBrd/Branches.antt =====
-- code/cow_brd.c, the branches of a write by brd_do_bvec, each as an equation.
use crashmonkey.Common.{ℕ, ◌+◌, ◌-◌, ◌/◌, ◌≡◌, refl, Bool, true, false, Option, none, some, ltb}
use crashmonkey.CowBrd.{Page, RadixTree, IsRadixTree, success, enomem, is_error, page_sectors}
use crashmonkey.CowBrd.Pages.{memcpy, brd_lookup_page, brd_insert_page}
use crashmonkey.CowBrd.Copy.{
  offset_of, first_copy, second_sector, copy_to_brd_setup, copy_to_second, copy_to_brd,
  rest_of_parent, brd_do_bvec, write_segment,
}

module _ (radix : RadixTree) (laws : IsRadixTree radix) where
  pub setup-first_fails :
      (allocated : ℕ → Bool) (parent : Option radix.Tree) (t : radix.Tree) (sector n : ℕ)
      → brd_insert_page radix allocated parent t sector ≡ none
      → copy_to_brd_setup radix allocated parent t sector n ≡ (enomem, t)
  unfolding copy_to_brd_setup
  setup-first_fails allocated parent t sector n e = rw (e, copy_to_brd_setup) refl

  pub setup-one :
      (allocated : ℕ → Bool) (parent : Option radix.Tree) (t : radix.Tree) (sector n : ℕ)
      {t1 : radix.Tree}
      → brd_insert_page radix allocated parent t sector ≡ some t1
      → ltb (first_copy sector n) n ≡ false
      → copy_to_brd_setup radix allocated parent t sector n ≡ (success, t1)
  unfolding copy_to_brd_setup
  setup-one allocated parent t sector n e f = rw (e, f, copy_to_brd_setup) refl

  pub setup-second_fails :
      (allocated : ℕ → Bool) (parent : Option radix.Tree) (t : radix.Tree) (sector n : ℕ)
      {t1 : radix.Tree}
      → brd_insert_page radix allocated parent t sector ≡ some t1
      → ltb (first_copy sector n) n ≡ true
      → brd_insert_page radix allocated parent t1 (second_sector sector n) ≡ none
      → copy_to_brd_setup radix allocated parent t sector n ≡ (enomem, t1)
  unfolding copy_to_brd_setup
  setup-second_fails allocated parent t sector n e f g = rw (e, f, g, copy_to_brd_setup) refl

  pub setup-two :
      (allocated : ℕ → Bool) (parent : Option radix.Tree) (t : radix.Tree) (sector n : ℕ)
      {t1 t2 : radix.Tree}
      → brd_insert_page radix allocated parent t sector ≡ some t1
      → ltb (first_copy sector n) n ≡ true
      → brd_insert_page radix allocated parent t1 (second_sector sector n) ≡ some t2
      → copy_to_brd_setup radix allocated parent t sector n ≡ (success, t2)
  unfolding copy_to_brd_setup
  setup-two allocated parent t sector n e f g = rw (e, f, g, copy_to_brd_setup) refl

  pub copy_to-one :
      (parent : Option radix.Tree) (t : radix.Tree) (src : Page) (sector n : ℕ) (page : Page)
      → radix.lookup t (sector / page_sectors) ≡ some page
      → ltb (first_copy sector n) n ≡ false
      → copy_to_brd radix parent t src sector n
        ≡ some (
            radix.put t
              (sector / page_sectors)
              (memcpy page (offset_of sector) src (first_copy sector n)))
  unfolding copy_to_brd brd_lookup_page
  copy_to-one parent t src sector n page e f = rw (e, f, copy_to_brd) refl

  pub copy_to-two :
      (parent : Option radix.Tree) (t : radix.Tree) (src : Page) (sector n : ℕ) (page : Page)
      → radix.lookup t (sector / page_sectors) ≡ some page
      → ltb (first_copy sector n) n ≡ true
      → copy_to_brd radix parent t src sector n
        ≡ copy_to_second radix parent
            (radix.put t
              (sector / page_sectors)
              (memcpy page (offset_of sector) src (first_copy sector n)))
            (λ k. src (first_copy sector n + k))
            (second_sector sector n)
            (n - first_copy sector n)
  unfolding copy_to_brd brd_lookup_page
  copy_to-two parent t src sector n page e f = rw (e, f, copy_to_brd) refl

  pub copy_to_second_lem :
      (parent : Option radix.Tree) (t : radix.Tree) (src : Page) (sector copy : ℕ) (page : Page)
      → radix.lookup t (sector / page_sectors) ≡ some page
      → copy_to_second radix parent t src sector copy
        ≡ some (
            radix.put t
              (sector / page_sectors)
              (memcpy (rest_of_parent radix parent sector page copy) 0 src copy))
  unfolding copy_to_second brd_lookup_page
  copy_to_second_lem parent t src sector copy page e = rw (e, copy_to_second) refl

  pub do_bvec-fails :
      (allocated : ℕ → Bool) (parent : Option radix.Tree) (t : radix.Tree) (mem : Page)
      (n sector : ℕ) {t' : radix.Tree}
      → copy_to_brd_setup radix allocated parent t sector n ≡ (enomem, t')
      → brd_do_bvec radix allocated parent t mem n false sector ≡ some (enomem, t', mem)
  unfolding brd_do_bvec write_segment is_error
  do_bvec-fails allocated parent t mem n sector e = rw (e) refl

  pub do_bvec-writes :
      (allocated : ℕ → Bool) (parent : Option radix.Tree) (t : radix.Tree) (mem : Page)
      (n sector : ℕ) {t' t'' : radix.Tree}
      → copy_to_brd_setup radix allocated parent t sector n ≡ (success, t')
      → copy_to_brd radix parent t' mem sector n ≡ some t''
      → brd_do_bvec radix allocated parent t mem n false sector ≡ some (success, t'', mem)
  unfolding brd_do_bvec write_segment is_error
  do_bvec-writes allocated parent t mem n sector e f = rw (e, f) refl
