-- ===== src/CowBrd/Reads.antt =====
-- code/cow_brd.c, a read by brd_do_bvec (copy_from_brd): what it puts into the segment.
use crashmonkey.Common.{
  ℕ, ◌+◌, ◌-◌, ◌*◌, ◌/◌, ◌%◌, ◌≤◌, ◌<◌, ◌≡◌, refl, sym, ap, ◌∙◌, ◌⊎◌, inl, inr, true, false, Option,
  none, some, ltb, arith, Option-cases,
}
use crashmonkey.CowBrd.{Page, RadixTree, IsRadixTree, page_size, page_sectors, sector_size}
use crashmonkey.CowBrd.Pages.{memcpy, zero_page, brd_lookup_page}
use crashmonkey.CowBrd.Copy.{
  offset_of, first_copy, second_sector, parent_source, first_source, second_source, copy_from_brd,
}
use crashmonkey.CowBrd.View.{
  lt_or_ge, byte_at, parent_byte, present-byte, absent-byte, memcpy-inside, memcpy-outside,
}
use crashmonkey.CowBrd.Transfers.{
  first_copy-whole, first_copy-part, offset_of-InPage, offset_of-address, second_sector_lem,
  memcpy-split,
}

pub memcpy-ext :
    (d e : Page) (start : ℕ) (src src' : Page) (n k : ℕ)
    → d k ≡ e k
    → ((j : ℕ) → j < n → src j ≡ src' j)
    → memcpy d start src n k ≡ memcpy e start src' n k
memcpy-ext d e start src src' n k h same = elim (lt_or_ge k start) [
  | inl lt ↦
      memcpy-outside d start src n k (inl lt) ∙ h ∙ sym (memcpy-outside e start src' n k (inl lt))
  | inr ge ↦ elim (lt_or_ge k (start + n)) [
    | inl lt ↦
        let at : start + (k - start) ≡ k = omega arith in
        memcpy-inside d start src n at (omega arith)
        ∙ same (k - start) (omega arith)
        ∙ sym (memcpy-inside e start src' n at (omega arith))
    | inr out ↦
        memcpy-outside d start src n k (inr out)
        ∙ h
        ∙ sym (memcpy-outside e start src' n k (inr out))
  ]
]

module _ (radix : RadixTree) (laws : IsRadixTree radix) where
  parent_source-byte :
      (parent : Option radix.Tree) (sector start k a : ℕ)
      → sector / page_sectors ≡ a / page_size
      → start + k ≡ a % page_size
      → parent_source radix parent sector start k ≡ parent_byte radix parent a
  unfolding parent_source parent_byte zero_page brd_lookup_page
  parent_source-byte none sector start k a h h' = refl
  parent_source-byte (some p) sector start k a h h' =
      elim (Option-cases (radix.lookup p (a / page_size))) [
        | inl e ↦ rw (h, e, parent_source) refl
        | inr (q, e) ↦ rw (h, e, parent_source) (ap q h')
      ]

  first_source-byte :
      (parent : Option radix.Tree) (t : radix.Tree) (sector start k a : ℕ)
      → sector / page_sectors ≡ a / page_size
      → start + k ≡ a % page_size
      → first_source radix parent t sector start k ≡ byte_at radix parent t a
  unfolding first_source brd_lookup_page
  first_source-byte parent t sector start k a h h' =
      elim (Option-cases (radix.lookup t (sector / page_sectors))) [
        | inl e ↦
            rw (e, first_source)
              (parent_source-byte parent sector start k a h h'
                ∙ sym (absent-byte radix laws parent t a h e))
        | inr (q, e) ↦
            rw (e, first_source) (ap q h' ∙ sym (present-byte radix laws parent t q a h e))
      ]

  second_own-byte :
      (parent : Option radix.Tree) (t : radix.Tree) (sector start k a : ℕ) (q : Page)
      → sector / page_sectors ≡ a / page_size
      → k ≡ a % page_size
      → radix.lookup t (sector / page_sectors) ≡ some q
      → second_source radix parent t sector start k ≡ byte_at radix parent t a
  unfolding second_source brd_lookup_page
  second_own-byte parent t sector start k a q h h' e =
      rw (e, second_source) (ap q h' ∙ sym (present-byte radix laws parent t q a h e))

  second_alone-byte :
      (t : radix.Tree) (sector start k a : ℕ)
      → sector / page_sectors ≡ a / page_size
      → k ≡ a % page_size
      → second_source radix none t sector start k ≡ byte_at radix none t a
  unfolding second_source parent_source zero_page brd_lookup_page parent_byte
  second_alone-byte t sector start k a h h' =
      elim (Option-cases (radix.lookup t (sector / page_sectors))) [
        | inr (q, e) ↦ second_own-byte none t sector start k a q h h' e
        | inl e ↦ rw (e, second_source) (sym (absent-byte radix laws none t a h e))
      ]

  -- The part behind the end of the first page is read from where it stands.
  SecondIsRead : Option radix.Tree → radix.Tree → ℕ → ℕ → Type 0
  SecondIsRead parent t sector n =
      (j : ℕ)
      → j < n - first_copy sector n
      → second_source radix parent t (second_sector sector n) (offset_of sector) j
        ≡ byte_at radix parent t (sector * sector_size + (first_copy sector n + j))

  copy_from-one :
      (dst : Page) (parent : Option radix.Tree) (t : radix.Tree) (sector n k : ℕ)
      → offset_of sector + n ≤ page_size
      → copy_from_brd radix dst parent t sector n k
        ≡ memcpy dst 0 (λ j. byte_at radix parent t (sector * sector_size + j)) n k
  unfolding copy_from_brd
  copy_from-one dst parent t sector n k h =
      let whole : first_copy sector n ≡ n = first_copy-whole sector n h in
      let one : ltb n n ≡ false = ground arith in
      rw (whole, one)
        (memcpy-ext dst dst 0 _ _ n k refl (λ j lt.
          first_source-byte parent t sector (offset_of sector) j (sector * sector_size + j)
            (omega (arith, offset_of-address sector, offset_of-InPage sector))
            (omega (arith, offset_of-address sector, offset_of-InPage sector))))

  copy_from-two :
      (dst : Page) (parent : Option radix.Tree) (t : radix.Tree) (sector n k : ℕ)
      → page_size < offset_of sector + n
      → n ≤ page_size
      → SecondIsRead parent t sector n
      → copy_from_brd radix dst parent t sector n k
        ≡ memcpy dst 0 (λ j. byte_at radix parent t (sector * sector_size + j)) n k
  unfolding copy_from_brd SecondIsRead
  copy_from-two dst parent t sector n k h h' second =
      let c = first_copy sector n in
      let part : c ≡ page_size - offset_of sector = first_copy-part sector n (omega arith) in
      let two : ltb c n ≡ true = ground (arith, offset_of-InPage sector) in
      rw (two) (
        memcpy-ext (memcpy dst 0 (first_source radix parent t sector (offset_of sector)) c)
          (memcpy dst 0 (λ j. byte_at radix parent t (sector * sector_size + j)) c) c _
          (λ j. byte_at radix parent t (sector * sector_size + (c + j))) (n - c) k
          (memcpy-ext dst dst 0 _ _ c k refl (λ j lt.
            first_source-byte parent t sector (offset_of sector) j (sector * sector_size + j)
              (omega (arith, offset_of-address sector, offset_of-InPage sector))
              (omega (arith, offset_of-address sector, offset_of-InPage sector))))
          second
        ∙ ap
            (λ z.
              memcpy (memcpy dst 0 (λ j. byte_at radix parent t (sector * sector_size + j)) c) z
                (λ j. byte_at radix parent t (sector * sector_size + (c + j))) (n - c) k)
            {y = 0 + c} (omega arith)
        ∙ memcpy-split dst 0 (λ j. byte_at radix parent t (sector * sector_size + j)) c n k
            (omega (arith, offset_of-InPage sector)))

  -- A read of at most a page by copy_from_brd puts into the segment the bytes that stand at its
  -- addresses, and changes nothing behind its length. Where it goes over the end of a page, the
  -- device has the next page itself, or it has no parent.
  pub copy_from_brd-byte :
      (dst : Page) (parent : Option radix.Tree) (t : radix.Tree) (sector n k : ℕ)
      → n ≤ page_size
      → (offset_of sector + n ≤ page_size)
        ⊎ (((q : Page) × (radix.lookup t (1 + sector / page_sectors) ≡ some q)) ⊎ (parent ≡ none))
      → copy_from_brd radix dst parent t sector n k
        ≡ memcpy dst 0 (λ j. byte_at radix parent t (sector * sector_size + j)) n k
  unfolding SecondIsRead
  copy_from_brd-byte dst parent t sector n k h (inl whole) =
      copy_from-one dst parent t sector n k whole
  copy_from_brd-byte dst parent t sector n k h (inr own) =
      elim (lt_or_ge page_size (offset_of sector + n)) [
        | inr le ↦ copy_from-one dst parent t sector n k le
        | inl over ↦
            let c = first_copy sector n in
            let s2 = second_sector sector n in
            let part : c ≡ page_size - offset_of sector = first_copy-part sector n (omega arith) in
            let next : s2 / page_sectors ≡ 1 + sector / page_sectors =
              omega (arith, second_sector_lem sector n (omega arith)) in
            let facts : (j : ℕ)
                → j < n - c
                → (s2 / page_sectors ≡ (sector * sector_size + (c + j)) / page_size)
                  × (j ≡ (sector * sector_size + (c + j)) % page_size) =
              λ j lt. (
                omega (arith, offset_of-address sector, offset_of-InPage sector),
                omega (arith, offset_of-address sector, offset_of-InPage sector),
              ) in
            copy_from-two dst parent t sector n k over h (λ j lt. elim own [
              | inl (q, e) ↦
                  second_own-byte parent t s2 (offset_of sector) j (sector * sector_size + (c + j))
                    q (facts j lt).0 (facts j lt).1 (ap (radix.lookup t) next ∙ e)
              | inr alone ↦
                  ap (λ p. second_source radix p t s2 (offset_of sector) j) alone
                  ∙ second_alone-byte t s2 (offset_of sector) j (sector * sector_size + (c + j))
                      (facts j lt).0 (facts j lt).1
                  ∙ ap (λ p. byte_at radix p t (sector * sector_size + (c + j))) (sym alone)
            ])
      ]

  -- Where a read of at most a page goes over the end of a page and only the parent has the next
  -- page, the byte j behind the end is not the byte j of that page but the one `offset` further
  -- on, where `offset` is where the read began in its first page.
  pub copy_from_brd-shifted :
      (dst : Page) (parent t : radix.Tree) (sector n j : ℕ) (q : Page)
      → page_size < offset_of sector + n
      → n ≤ page_size
      → j < n - (page_size - offset_of sector)
      → radix.lookup t (1 + sector / page_sectors) ≡ none
      → radix.lookup parent (1 + sector / page_sectors) ≡ some q
      → (copy_from_brd radix dst (some parent) t sector n ((page_size - offset_of sector) + j)
          ≡ q (offset_of sector + j))
        × (byte_at radix
              (some parent)
              t
              (sector * sector_size + ((page_size - offset_of sector) + j))
            ≡ q j)
  unfolding copy_from_brd second_source parent_source brd_lookup_page parent_byte
  copy_from_brd-shifted dst parent t sector n j q h h' lt e e' =
      let c = first_copy sector n in
      let s2 = second_sector sector n in
      let a = sector * sector_size + ((page_size - offset_of sector) + j) in
      let part : c ≡ page_size - offset_of sector = first_copy-part sector n (omega arith) in
      let two : ltb c n ≡ true = ground (arith, offset_of-InPage sector) in
      let next : s2 / page_sectors ≡ 1 + sector / page_sectors =
        omega (arith, second_sector_lem sector n (omega arith)) in
      let page : 1 + sector / page_sectors ≡ a / page_size =
        omega (arith, offset_of-address sector, offset_of-InPage sector) in
      let place : a % page_size ≡ j =
        omega (arith, offset_of-address sector, offset_of-InPage sector) in
      (
        rw (two) (
            memcpy-inside _ c _ (n - c) {j = j} (omega arith) (omega arith)
            ∙ rw (next, e, second_source) (rw (next, e', parent_source) refl)),
        absent-byte radix laws (some parent) t a page e ∙ rw (sym page, e') (ap q place),
      )
