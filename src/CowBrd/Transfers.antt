-- ===== src/CowBrd/Transfers.antt =====
-- code/cow_brd.c, what brd_do_bvec does to the content of a device: a write puts the segment's
-- bytes at their addresses or fails, and a read gets them from there.
use Prim.Native.Nat.{}
use crashmonkey.Common.{
  ℕ, ◌+◌, ◌-◌, ◌*◌, ◌/◌, ◌%◌, ◌≤◌, ◌<◌, ◌≡◌, ◌≢◌, refl, sym, ap, ◌∙◌, ◌⊎◌, inl, inr, Bool, Option,
  none, some, arith, Option-cases, Bool-cases,
}
use crashmonkey.CowBrd.{
  Page, RadixTree, IsRadixTree, Errno, success, enomem, page_size, page_sectors, sector_size,
}
use crashmonkey.CowBrd.Pages.{memcpy, brd_insert_page, new_page}
use crashmonkey.CowBrd.Copy.{offset_of, first_copy, second_sector}
use crashmonkey.CowBrd.View.{
  eq-cases, lt_or_ge, byte_at, memcpy-inside, memcpy-outside, put-byte_self, put-byte_ne,
  present-byte, put_new-byte, insert-present, insert-absent, insert-failed,
}

-- A part of a segment that stays in its page, and the sector behind the page.
pub first_copy-whole : (sector n : ℕ) → offset_of sector + n ≤ page_size → first_copy sector n ≡ n
unfolding first_copy
first_copy-whole sector n h = omega arith

pub first_copy-part :
    (sector n : ℕ)
    → page_size ≤ offset_of sector + n
    → first_copy sector n ≡ page_size - offset_of sector
unfolding first_copy
first_copy-part sector n h = omega arith

pub offset_of-InPage : (sector : ℕ) → offset_of sector < page_size
unfolding offset_of
offset_of-InPage sector = omega arith

-- The address of a sector.
pub offset_of-address :
    (sector : ℕ) → sector / page_sectors * page_size + offset_of sector ≡ sector * sector_size
unfolding offset_of
offset_of-address sector = omega arith

pub second_sector_lem :
    (sector n : ℕ)
    → page_size ≤ offset_of sector + n
    → second_sector sector n ≡ (1 + sector / page_sectors) * page_sectors
unfolding second_sector first_copy offset_of
second_sector_lem sector n h = omega arith

memcpy-shift :
    (d e : Page) (base start k : ℕ) (src : Page) (n : ℕ)
    → d k ≡ e (base + k)
    → memcpy d start src n k ≡ memcpy e (base + start) src n (base + k)
unfolding memcpy
memcpy-shift d e base start k src n h =
    let f : base + k - (base + start) ≡ k - start = omega arith in rw (f) (ground arith)

pub memcpy-split :
    (d : Page) (start : ℕ) (src : Page) (c n k : ℕ)
    → c ≤ n
    → memcpy (memcpy d start src c) (start + c) (λ j. src (c + j)) (n - c) k
      ≡ memcpy d start src n k
memcpy-split d start src c n k h = elim (lt_or_ge k start) [
  | inl below ↦
      memcpy-outside _ (start + c) _ (n - c) k (inl (omega arith))
      ∙ memcpy-outside d start src c k (inl below)
      ∙ sym (memcpy-outside d start src n k (inl below))
  | inr le ↦ elim (lt_or_ge k (start + c)) [
    | inl lt ↦
        memcpy-outside _ (start + c) _ (n - c) k (inl lt)
        ∙ memcpy-inside d start src c {j = k - start} (omega arith) (omega arith)
        ∙ sym (memcpy-inside d start src n {j = k - start} (omega arith) (omega arith))
    | inr ge ↦ elim (lt_or_ge k (start + n)) [
      | inl lt ↦
          memcpy-inside _ (start + c) _ (n - c) {j = k - (start + c)} (omega arith) (omega arith)
          ∙ sym
              (memcpy-inside d start src n {j = c + (k - (start + c))} (omega arith) (omega arith))
      | inr above ↦
          memcpy-outside _ (start + c) _ (n - c) k (inr (omega arith))
          ∙ memcpy-outside d start src c k (inr ge)
          ∙ sym (memcpy-outside d start src n k (inr above))
    ]
  ]
]

module _ (radix : RadixTree) (laws : IsRadixTree radix) where
  -- What inserting a page leaves: the page, the other pages as they were, and every byte.
  pub record Inserted (parent : Option radix.Tree) (t : radix.Tree) (sector : ℕ) (t' : radix.Tree)
      (page : Page) : Type 0 where
    pub present : radix.lookup t' (sector / page_sectors) ≡ some page
    pub others : (j : ℕ) → sector / page_sectors ≢ j → radix.lookup t' j ≡ radix.lookup t j
    pub bytes : (a : ℕ) → byte_at radix parent t' a ≡ byte_at radix parent t a
    pub source :
        (radix.lookup t (sector / page_sectors) ≡ some page) ⊎ (page ≡ new_page radix parent sector)

  pub insert-cases :
      (allocated : ℕ → Bool) (parent : Option radix.Tree) (t : radix.Tree) (sector : ℕ)
      → (brd_insert_page radix allocated parent t sector ≡ none)
        ⊎ ((t' : radix.Tree) × (page : Page) × (brd_insert_page radix allocated parent t sector
              ≡ some t')
            × Inserted parent t sector t' page)
  insert-cases allocated parent t sector =
      let i = sector / page_sectors in
      elim (Option-cases (radix.lookup t i)) [
        | inr (p, e) ↦ inr (
          t,
          p,
          insert-present radix laws allocated parent t sector p e,
          record { present = e; others = λ j ne. refl; bytes = λ a. refl; source = inl e },
        )
        | inl e ↦ elim (Bool-cases (allocated i)) [
          | inr f ↦ inl (insert-failed radix laws allocated parent t sector e f)
          | inl f ↦ inr (
            radix.put t i (new_page radix parent sector),
            new_page radix parent sector,
            insert-absent radix laws allocated parent t sector e f,
            record {
              present = laws.lookup-put_self t i (new_page radix parent sector);
              others = λ j ne. laws.lookup-put_ne t (new_page radix parent sector) ne;
              bytes = λ a. put_new-byte radix laws parent t sector a e;
              source = inr refl;
            },
          )
        ]
      ]

  -- A part of a page that is written.
  pub put-write :
      (parent : Option radix.Tree) (t : radix.Tree) (page page' : Page) (i start : ℕ) (src : Page)
      (n a : ℕ)
      → radix.lookup t i ≡ some page
      → ((k : ℕ) → k < page_size → page' k ≡ page k)
      → start + n ≤ page_size
      → byte_at radix parent (radix.put t i (memcpy page' start src n)) a
        ≡ memcpy (byte_at radix parent t) (i * page_size + start) src n a
  put-write parent t page page' i start src n a e same h = elim (eq-cases i (a / page_size)) [
    | inl f ↦
        let k = a % page_size in
        let g : i * page_size + k ≡ a = omega arith in
        put-byte_self radix laws parent t (memcpy page' start src n) a f
        ∙ memcpy-shift page' (byte_at radix parent t) (i * page_size) start k src n (
            same k (omega arith)
            ∙ sym (
                present-byte radix laws parent t page (i * page_size + k) (omega arith) e
                ∙ ap page {y = k} (omega arith)))
        ∙ ap (memcpy (byte_at radix parent t) (i * page_size + start) src n) g
    | inr f ↦
        put-byte_ne radix laws parent t (memcpy page' start src n) a f
        ∙ sym (memcpy-outside (byte_at radix parent t) (i * page_size + start) src n a (outside f))
  ]
    where
      outside : i ≢ a / page_size → (a < i * page_size + start) ⊎ (i * page_size + start + n ≤ a)
      outside f = elim (lt_or_ge (a / page_size) i) [
        | inl lt ↦ inl (omega arith)
        | inr ge ↦ inr (omega arith)
      ]

  -- The end of a write of one segment: its bytes are at their addresses, or the memory ran out
  -- and no byte changed.
  unfoldable pub IsWritten :
      Option radix.Tree → radix.Tree → ℕ → Page → ℕ → Errno → radix.Tree → Type 0
  IsWritten parent t start mem n err t' =
      ((err ≡ success)
        × ((a : ℕ) → byte_at radix parent t' a ≡ memcpy (byte_at radix parent t) start mem n a))
      ⊎ ((err ≡ enomem) × ((a : ℕ) → byte_at radix parent t' a ≡ byte_at radix parent t a))

  pub memcpy-cong :
      (d e : Page) (start : ℕ) (src : Page) (n a : ℕ)
      → d a ≡ e a
      → memcpy d start src n a ≡ memcpy e start src n a
  unfolding memcpy
  memcpy-cong d e start src n a h = rw (h) refl
