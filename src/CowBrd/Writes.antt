-- ===== src/CowBrd/Writes.antt =====
-- code/cow_brd.c, a write by brd_do_bvec as a whole: inside one page, and over the end of a page.
use crashmonkey.Common.{
  ℕ, ◌+◌, ◌-◌, ◌*◌, ◌/◌, ◌≤◌, ◌<◌, ◌≡◌, refl, sym, ap, ◌∙◌, ◌⊎◌, inl, inr, Bool, true, false,
  Option, none, some, ltb, arith, Option-cases,
}
use mathlib.Core.Option.{none-ne-some}
use crashmonkey.CowBrd.{
  Page, RadixTree, IsRadixTree, Errno, success, enomem, page_size, page_sectors, sector_size,
}
use crashmonkey.CowBrd.Pages.{memcpy, zero_page, brd_lookup_page, new_page}
use crashmonkey.CowBrd.Copy.{
  offset_of, first_copy, second_sector, rest_of_parent, copy_to_brd, brd_do_bvec,
}
use crashmonkey.CowBrd.View.{lt_or_ge, byte_at, memcpy-inside, memcpy-outside}
use crashmonkey.CowBrd.Transfers.{
  first_copy-whole, first_copy-part, offset_of-InPage, offset_of-address, second_sector_lem,
  memcpy-split, memcpy-cong, insert-cases, put-write, IsWritten,
}
use crashmonkey.CowBrd.Branches.{
  setup-first_fails, setup-one, setup-second_fails, setup-two, copy_to-one, copy_to-two,
  copy_to_second_lem, do_bvec-fails, do_bvec-writes,
}

module _ (radix : RadixTree) (laws : IsRadixTree radix) where
  write-in_page :
      (allocated : ℕ → Bool) (parent : Option radix.Tree) (t : radix.Tree) (mem : Page)
      (n sector : ℕ)
      → offset_of sector + n ≤ page_size
      → (err : Errno) × (t' : radix.Tree) × (brd_do_bvec radix allocated parent t mem n false sector
          ≡ some (err, t', mem))
        × IsWritten radix laws parent t (sector * sector_size) mem n err t'
  unfolding IsWritten
  write-in_page allocated parent t mem n sector h =
      let i = sector / page_sectors in
      let whole : first_copy sector n ≡ n = first_copy-whole sector n h in
      let one : ltb (first_copy sector n) n ≡ false = ground arith in
      elim (insert-cases radix laws allocated parent t sector) [
        | inl e ↦ (
          enomem,
          t,
          do_bvec-fails radix laws allocated parent t mem n sector
              (setup-first_fails radix laws allocated parent t sector n e),
          inr (refl, λ a. refl),
        )
        | inr (t1, page, e, at) ↦ (
          success,
          radix.put t1 i (memcpy page (offset_of sector) mem (first_copy sector n)),
          do_bvec-writes radix laws allocated parent t mem n sector
              (setup-one radix laws allocated parent t sector n e one)
              (copy_to-one radix laws parent t1 mem sector n page at.present one),
          inl (
            refl,
            λ a.
                ap
                  (λ c.
                    byte_at radix parent (radix.put t1 i (memcpy page (offset_of sector) mem c)) a)
                  whole
                ∙ put-write radix laws parent t1 page page i (offset_of sector) mem n a at.present
                    (λ k lt. refl) h
                ∙ ap (λ c. memcpy (byte_at radix parent t1) c mem n a) (offset_of-address sector)
                ∙ memcpy-cong radix laws (byte_at radix parent t1) (byte_at radix parent t)
                    (sector * sector_size) mem n a (at.bytes a),
          ),
        )
      ]

  -- Filling up from the parent changes nothing in a page that was just copied from it.
  rest-same :
      (parent : Option radix.Tree) (s : ℕ) (page : Page) (c k : ℕ)
      → (page ≡ new_page radix parent s) ⊎ (parent ≡ none)
      → k < page_size
      → rest_of_parent radix parent s page c k ≡ page k
  unfolding rest_of_parent new_page brd_lookup_page
  rest-same none s page c k h lt = refl
  rest-same (some p) s page c k (inr h) lt = absurd (none-ne-some _ (sym h))
  rest-same (some p) s page c k (inl h) lt =
      elim (Option-cases (radix.lookup p (s / page_sectors))) [
        | inl e ↦ rw (e, rest_of_parent) refl
        | inr (q, e) ↦
            let copied : page k ≡ q k =
              ap (λ f. f k) h
              ∙ rw (e, new_page) (memcpy-inside zero_page 0 q page_size {j = k} (omega arith) lt) in
            rw (e, rest_of_parent)
              (elim (lt_or_ge k c) [
                | inl below ↦ memcpy-outside page c _ (page_size - c) k (inl below)
                | inr ge ↦
                    memcpy-inside page c _ (page_size - c) {j = k - c} (omega arith) (omega arith)
                    ∙ ap q {y = k} (omega arith)
                    ∙ sym copied
              ])
      ]

  both-pages :
      (parent : Option radix.Tree) (t : radix.Tree) (mem : Page) (n sector : ℕ) (page1 page2 : Page)
      → page_size < offset_of sector + n
      → n ≤ page_size
      → radix.lookup t (sector / page_sectors) ≡ some page1
      → radix.lookup t (second_sector sector n / page_sectors) ≡ some page2
      → (page2 ≡ new_page radix parent (second_sector sector n)) ⊎ (parent ≡ none)
      → (t' : radix.Tree) × (copy_to_brd radix parent t mem sector n ≡ some t')
        × ((a : ℕ)
            → byte_at radix parent t' a
              ≡ memcpy (byte_at radix parent t) (sector * sector_size) mem n a)
  both-pages parent t mem n sector page1 page2 h h' e1 e2 new =
      let i = sector / page_sectors in
      let c = first_copy sector n in
      let s2 = second_sector sector n in
      let i2 = s2 / page_sectors in
      let rest : Page = λ k. mem (c + k) in
      let part : c ≡ page_size - offset_of sector = first_copy-part sector n (omega arith) in
      let two : ltb c n ≡ true = ground (arith, offset_of-InPage sector) in
      let next : i2 ≡ 1 + i = omega (arith, second_sector_lem sector n (omega arith)) in
      let behind : i2 * page_size + 0 ≡ sector * sector_size + c =
        omega (arith, offset_of-address sector, offset_of-InPage sector) in
      let t1 = radix.put t i (memcpy page1 (offset_of sector) mem c) in
      let still : radix.lookup t1 i2 ≡ some page2 = laws.lookup-put_ne t _ (omega arith) ∙ e2 in
      let filled = rest_of_parent radix parent s2 page2 (n - c) in
      (
        radix.put t1 i2 (memcpy filled 0 rest (n - c)),
        copy_to-two radix laws parent t mem sector n page1 e1 two
            ∙ copy_to_second_lem radix laws parent t1 rest s2 (n - c) page2 still,
        λ a.
            put-write radix laws parent t1 page2 filled i2 0 rest (n - c) a still
              (λ k lt. rest-same parent s2 page2 (n - c) k new lt) (omega arith)
            ∙ ap (λ z. memcpy (byte_at radix parent t1) z rest (n - c) a) behind
            ∙ memcpy-cong radix laws (byte_at radix parent t1)
                (memcpy (byte_at radix parent t) (sector * sector_size) mem c)
                (sector * sector_size + c) rest (n - c) a
                (put-write radix laws parent t page1 page1 i (offset_of sector) mem c a e1
                    (λ k lt. refl) (omega (arith, offset_of-InPage sector))
                  ∙ ap (λ z. memcpy (byte_at radix parent t) z mem c a) (offset_of-address sector))
            ∙ memcpy-split (byte_at radix parent t) (sector * sector_size) mem c n a
                (omega (arith, offset_of-InPage sector)),
      )

  write-over_end :
      (allocated : ℕ → Bool) (parent : Option radix.Tree) (t : radix.Tree) (mem : Page)
      (n sector : ℕ)
      → page_size < offset_of sector + n
      → n ≤ page_size
      → (radix.lookup t (1 + sector / page_sectors) ≡ none) ⊎ (parent ≡ none)
      → (err : Errno) × (t' : radix.Tree) × (brd_do_bvec radix allocated parent t mem n false sector
          ≡ some (err, t', mem))
        × IsWritten radix laws parent t (sector * sector_size) mem n err t'
  unfolding IsWritten
  write-over_end allocated parent t mem n sector h h' fresh =
      let i = sector / page_sectors in
      let c = first_copy sector n in
      let s2 = second_sector sector n in
      let part : c ≡ page_size - offset_of sector = first_copy-part sector n (omega arith) in
      let two : ltb c n ≡ true = ground (arith, offset_of-InPage sector) in
      let next : s2 / page_sectors ≡ 1 + i =
        omega (arith, second_sector_lem sector n (omega arith)) in
      elim (insert-cases radix laws allocated parent t sector) [
        | inl e ↦ (
          enomem,
          t,
          do_bvec-fails radix laws allocated parent t mem n sector
              (setup-first_fails radix laws allocated parent t sector n e),
          inr (refl, λ a. refl),
        )
        | inr (t1, page1, e1, at1) ↦ elim (insert-cases radix laws allocated parent t1 s2) [
          | inl e2 ↦ (
            enomem,
            t1,
            do_bvec-fails radix laws allocated parent t mem n sector
                (setup-second_fails radix laws allocated parent t sector n e1 two e2),
            inr (refl, at1.bytes),
          )
          | inr (t2, page2, e2, at2) ↦
              let source : (page2 ≡ new_page radix parent s2) ⊎ (parent ≡ none) = elim at2.source [
                | inr new ↦ inl new
                | inl old ↦ elim fresh [
                  | inr alone ↦ inr alone
                  | inl gone ↦ absurd (
                      none-ne-some page2 (
                        sym gone
                        ∙ sym (at1.others (1 + i) (omega arith))
                        ∙ ap (radix.lookup t1) (sym next)
                        ∙ old))
                ]
              ] in
              let (t3, e3, bytes) =
                both-pages parent t2 mem n sector page1 page2 h h'
                  (at2.others i (omega arith) ∙ at1.present) at2.present source in
              (
                success,
                t3,
                do_bvec-writes radix laws allocated parent t mem n sector
                    (setup-two radix laws allocated parent t sector n e1 two e2) e3,
                inl (
                  refl,
                  λ a.
                      bytes a
                      ∙ memcpy-cong radix laws (byte_at radix parent t2) (byte_at radix parent t)
                          (sector * sector_size) mem n a (at2.bytes a ∙ at1.bytes a),
                ),
              )
        ]
      ]

  -- A write of at most a page by brd_do_bvec returns without a BUG_ON, whatever can be allocated:
  -- either its bytes are at their addresses and all others as before, or it ends with ENOMEM and
  -- no byte changed. Where the write goes over the end of a page, the device does not have the
  -- next page yet, or it has no parent.
  pub brd_do_bvec-IsWritten :
      (allocated : ℕ → Bool) (parent : Option radix.Tree) (t : radix.Tree) (mem : Page)
      (n sector : ℕ)
      → n ≤ page_size
      → (offset_of sector + n ≤ page_size)
        ⊎ ((radix.lookup t (1 + sector / page_sectors) ≡ none) ⊎ (parent ≡ none))
      → (err : Errno) × (t' : radix.Tree) × (brd_do_bvec radix allocated parent t mem n false sector
          ≡ some (err, t', mem))
        × IsWritten radix laws parent t (sector * sector_size) mem n err t'
  brd_do_bvec-IsWritten allocated parent t mem n sector h (inl whole) =
      write-in_page allocated parent t mem n sector whole
  brd_do_bvec-IsWritten allocated parent t mem n sector h (inr fresh) =
      elim (lt_or_ge page_size (offset_of sector + n)) [
        | inl over ↦ write-over_end allocated parent t mem n sector over h fresh
        | inr le ↦ write-in_page allocated parent t mem n sector le
      ]
