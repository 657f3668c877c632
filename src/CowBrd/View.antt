-- ===== src/CowBrd/View.antt =====
-- What code/cow_brd.c shows as the content of a device: a byte at each address, from the device's
-- own page if it has one, else from the parent's, else zero.
use crashmonkey.Common.{
  ℕ, ◌+◌, ◌-◌, ◌/◌, ◌%◌, ◌≤◌, ◌<◌, ◌≡◌, ◌≢◌, refl, sym, ◌∙◌, ◌⊎◌, inl, inr, Bool, true, false,
  Option, none, some, arith, Option-cases,
}
use crashmonkey.CowBrd.{Page, RadixTree, IsRadixTree, page_size, page_sectors}
use crashmonkey.CowBrd.Pages.{memcpy, zero_page, brd_lookup_page, brd_insert_page, new_page}

pub eq-cases : (i j : ℕ) → (i ≡ j) ⊎ (i ≢ j)
eq-cases i j = ground arith

pub lt_or_ge : (i j : ℕ) → (i < j) ⊎ (j ≤ i)
lt_or_ge i j = ground arith

-- memcpy, inside and outside of its range.
pub memcpy-inside :
    (dst : Page) (start : ℕ) (src : Page) (n : ℕ) {j k : ℕ}
    → start + j ≡ k
    → j < n
    → memcpy dst start src n k ≡ src j
unfolding memcpy
memcpy-inside dst start src n {j = j} {k = k} e h =
    let f : k - start ≡ j = omega arith in rw (sym f) (ground arith)

pub memcpy-outside :
    (dst : Page) (start : ℕ) (src : Page) (n k : ℕ)
    → (k < start) ⊎ (start + n ≤ k)
    → memcpy dst start src n k ≡ dst k
unfolding memcpy
memcpy-outside dst start src n k h = ground arith

abbrev pub own_byte : Option Page → ℕ → ℕ → ℕ
own_byte none below a = below
own_byte (some page) below a = page (a % page_size)

module _ (radix : RadixTree) where
  unfoldable pub parent_byte : Option radix.Tree → ℕ → ℕ
  parent_byte none a = 0
  parent_byte (some parent) a = own_byte (radix.lookup parent (a / page_size)) 0 a

  unfoldable pub byte_at : Option radix.Tree → radix.Tree → ℕ → ℕ
  byte_at parent t a = own_byte (radix.lookup t (a / page_size)) (parent_byte parent a) a

module _ (radix : RadixTree) (laws : IsRadixTree radix) where
  -- A new page shows what was shown before.
  pub new_page-byte :
      (parent : Option radix.Tree) (sector a : ℕ)
      → a / page_size ≡ sector / page_sectors
      → new_page radix parent sector (a % page_size) ≡ parent_byte radix parent a
  unfolding new_page parent_byte zero_page brd_lookup_page
  new_page-byte none sector a h = refl
  new_page-byte (some parent) sector a h =
      elim (Option-cases (radix.lookup parent (sector / page_sectors))) [
        | inl e ↦ rw (h, new_page, brd_lookup_page, e) refl
        | inr (p, e) ↦
            rw (h, new_page, brd_lookup_page, e)
              (memcpy-inside zero_page 0 p page_size {j = a % page_size} (omega arith)
                (omega arith))
      ]

  pub put-byte_self :
      (parent : Option radix.Tree) (t : radix.Tree) (p : Page) (a : ℕ) {i : ℕ}
      → i ≡ a / page_size
      → byte_at radix parent (radix.put t i p) a ≡ p (a % page_size)
  unfolding byte_at
  put-byte_self parent t p a e = rw (e, laws.lookup-put_self t (a / page_size) p) refl

  pub put-byte_ne :
      (parent : Option radix.Tree) (t : radix.Tree) (p : Page) (a : ℕ) {i : ℕ}
      → i ≢ a / page_size
      → byte_at radix parent (radix.put t i p) a ≡ byte_at radix parent t a
  unfolding byte_at
  put-byte_ne parent t p a ne = rw (laws.lookup-put_ne t p ne) refl

  pub present-byte :
      (parent : Option radix.Tree) (t : radix.Tree) (p : Page) (a : ℕ) {i : ℕ}
      → i ≡ a / page_size
      → radix.lookup t i ≡ some p
      → byte_at radix parent t a ≡ p (a % page_size)
  unfolding byte_at
  present-byte parent t p a e h = rw (sym e, h) refl

  pub absent-byte :
      (parent : Option radix.Tree) (t : radix.Tree) (a : ℕ) {i : ℕ}
      → i ≡ a / page_size
      → radix.lookup t i ≡ none
      → byte_at radix parent t a ≡ parent_byte radix parent a
  unfolding byte_at
  absent-byte parent t a e h = rw (sym e, h) refl

  pub insert-present :
      (allocated : ℕ → Bool) (parent : Option radix.Tree) (t : radix.Tree) (sector : ℕ) (p : Page)
      → radix.lookup t (sector / page_sectors) ≡ some p
      → brd_insert_page radix allocated parent t sector ≡ some t
  unfolding brd_insert_page brd_lookup_page
  insert-present allocated parent t sector p e = rw (e, brd_insert_page) refl

  pub insert-absent :
      (allocated : ℕ → Bool) (parent : Option radix.Tree) (t : radix.Tree) (sector : ℕ)
      → radix.lookup t (sector / page_sectors) ≡ none
      → allocated (sector / page_sectors) ≡ true
      → brd_insert_page radix allocated parent t sector
        ≡ some (radix.put t (sector / page_sectors) (new_page radix parent sector))
  unfolding brd_insert_page brd_lookup_page
  insert-absent allocated parent t sector e h = rw (e, h, brd_insert_page) refl

  pub insert-failed :
      (allocated : ℕ → Bool) (parent : Option radix.Tree) (t : radix.Tree) (sector : ℕ)
      → radix.lookup t (sector / page_sectors) ≡ none
      → allocated (sector / page_sectors) ≡ false
      → brd_insert_page radix allocated parent t sector ≡ none
  unfolding brd_insert_page brd_lookup_page
  insert-failed allocated parent t sector e h = rw (e, h, brd_insert_page) refl

  -- A page that is inserted changes no byte.
  pub put_new-byte :
      (parent : Option radix.Tree) (t : radix.Tree) (sector a : ℕ)
      → radix.lookup t (sector / page_sectors) ≡ none
      → byte_at radix parent (radix.put t (sector / page_sectors) (new_page radix parent sector)) a
        ≡ byte_at radix parent t a
  put_new-byte parent t sector a e = elim (eq-cases (sector / page_sectors) (a / page_size)) [
    | inl h ↦
        put-byte_self parent t (new_page radix parent sector) a h
        ∙ new_page-byte parent sector a (sym h)
        ∙ sym (absent-byte parent t a h e)
    | inr h ↦ put-byte_ne parent t (new_page radix parent sector) a h
  ]
