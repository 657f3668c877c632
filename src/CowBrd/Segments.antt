-- ===== src/CowBrd/Segments.antt =====
-- code/cow_brd.c, the loop of brd_make_request over the segments of a request: what a request that
-- writes leaves on the device, and what one that reads returns.
use crashmonkey.Common.{
  ℕ, suc, ◌+◌, ◌*◌, ◌/◌, ◌%◌, ◌≤◌, ◌<◌, ◌≡◌, refl, sym, ap, ◌∙◌, ◌⊎◌, inl, inr, Bool, false, Option,
  some, List, [], ◌∷◌, take, arith,
}
use crashmonkey.CowBrd.{
  Page, RadixTree, IsRadixTree, Errno, success, enomem, is_error, page_size, sector_size,
}
use crashmonkey.CowBrd.Pages.{memcpy}
use crashmonkey.CowBrd.Copy.{offset_of, brd_do_bvec}
use crashmonkey.CowBrd.Requests.{BioVec, do_segments}
use crashmonkey.CowBrd.View.{byte_at, memcpy-inside, memcpy-outside}
use crashmonkey.CowBrd.Transfers.{IsWritten}
use crashmonkey.CowBrd.Writes.{brd_do_bvec-IsWritten}
use crashmonkey.CowBrd.Reads.{}

-- Each segment is whole sectors inside one page, from the sector on where the last one ended.
unfoldable pub Fits : ℕ → List BioVec → Type 0
Fits sector [] = Unit
Fits sector (v ∷ vs) =
    (offset_of sector + v.bv_len ≤ page_size)
    × (v.bv_len % sector_size ≡ 0)
    × Fits (sector + v.bv_len / sector_size) vs

-- The flat content after segments are written one behind the other.
unfoldable pub write_all : Page → ℕ → List BioVec → Page
write_all d start [] = d
write_all d start (v ∷ vs) = write_all (memcpy d start v.mem v.bv_len) (start + v.bv_len) vs

-- The segments hold the flat content, one behind the other.
unfoldable pub Holds : Page → ℕ → List BioVec → Type 0
Holds d start [] = Unit
Holds d start (v ∷ vs) =
    ((j : ℕ) → j < v.bv_len → v.mem j ≡ d (start + j)) × Holds d (start + v.bv_len) vs

write_all-cong :
    (d e : Page) (start : ℕ) (vs : List BioVec)
    → ((a : ℕ) → d a ≡ e a)
    → (a : ℕ) → write_all d start vs a ≡ write_all e start vs a
unfolding write_all memcpy
write_all-cong d e start [] h a = h a
write_all-cong d e start (v ∷ vs) h a =
    write_all-cong (memcpy d start v.mem v.bv_len) (memcpy e start v.mem v.bv_len)
      (start + v.bv_len) vs (λ b. rw (h b) refl) a

write_all-before :
    (d : Page) (start : ℕ) (vs : List BioVec) (a : ℕ) → a < start → write_all d start vs a ≡ d a
unfolding write_all
write_all-before d start [] a h = refl
write_all-before d start (v ∷ vs) a h =
    write_all-before (memcpy d start v.mem v.bv_len) (start + v.bv_len) vs a (omega arith)
    ∙ memcpy-outside d start v.mem v.bv_len a (inl h)

pub write_all-Holds :
    (d : Page) (start : ℕ) (vs : List BioVec) → Holds (write_all d start vs) start vs
unfolding write_all Holds
write_all-Holds d start [] = tt
write_all-Holds d start (v ∷ vs) = (
  λ j lt. sym (
      write_all-before (memcpy d start v.mem v.bv_len) (start + v.bv_len) vs (start + j)
        (omega arith)
      ∙ memcpy-inside d start v.mem v.bv_len refl lt),
  write_all-Holds (memcpy d start v.mem v.bv_len) (start + v.bv_len) vs,
)

pub next_sector :
    (sector len : ℕ)
    → len % sector_size ≡ 0
    → (sector + len / sector_size) * sector_size ≡ sector * sector_size + len
next_sector sector len h = omega arith

module _ (radix : RadixTree) (laws : IsRadixTree radix) where
  -- The end of a loop that writes: the first k segments are written, and all of them unless
  -- the memory ran out.
  pub record Written (parent : Option radix.Tree) (t : radix.Tree) (start : ℕ) (vs : List BioVec)
      (err : Errno) (t' : radix.Tree) (k : ℕ) : Type 0 where
    pub bytes :
        (a : ℕ) → byte_at radix parent t' a ≡ write_all (byte_at radix parent t) start (take k vs) a
    pub ended : ((err ≡ success) × (take k vs ≡ vs)) ⊎ (err ≡ enomem)

  segments-fail :
      (allocated : ℕ → Bool) (parent : Option radix.Tree) (err : Errno) (t : radix.Tree)
      (sector : ℕ) (v : BioVec) (vs : List BioVec) {t' : radix.Tree}
      → brd_do_bvec radix allocated parent t v.mem v.bv_len false sector ≡ some (enomem, t', v.mem)
      → do_segments radix allocated parent false err t sector (v ∷ vs) ≡ some (enomem, t', v ∷ vs)
  unfolding do_segments is_error
  segments-fail allocated parent err t sector v vs e = rw (e) refl

  segments-go :
      (allocated : ℕ → Bool) (parent : Option radix.Tree) (err : Errno) (t : radix.Tree)
      (sector : ℕ) (v : BioVec) (vs : List BioVec) {t' t'' : radix.Tree} {err' : Errno}
      → brd_do_bvec radix allocated parent t v.mem v.bv_len false sector ≡ some (success, t', v.mem)
      → do_segments radix allocated parent false success t' (sector + v.bv_len / sector_size) vs
        ≡ some (err', t'', vs)
      → do_segments radix allocated parent false err t sector (v ∷ vs) ≡ some (err', t'', v ∷ vs)
  unfolding do_segments is_error
  segments-go allocated parent err t sector v vs e f = rw (e, f) refl

  pub do_segments-Written :
      (allocated : ℕ → Bool) (parent : Option radix.Tree) (t : radix.Tree) (sector : ℕ)
      (vs : List BioVec)
      → Fits sector vs
      → (err : Errno) × (t' : radix.Tree) × (k : ℕ) × (do_segments radix allocated parent false
            success t sector vs
          ≡ some (err, t', vs))
        × Written parent t (sector * sector_size) vs err t' k
  unfolding Fits do_segments write_all IsWritten
  do_segments-Written allocated parent t sector [] fits =
      (success, t, 0, refl, record { bytes = λ a. refl; ended = inl (refl, refl) })
  do_segments-Written allocated parent t sector (v ∷ vs) fits =
      let (err, t1, e, written) =
        brd_do_bvec-IsWritten radix laws allocated parent t v.mem v.bv_len sector
          (omega (arith, fits.0)) (inl fits.0) in
      elim written [
        | inr (no_memory, same) ↦ (
          enomem,
          t1,
          0,
          segments-fail allocated parent success t sector v vs
              (e ∙ ap (λ x. some (x, t1, v.mem)) no_memory),
          record { bytes = same; ended = inr refl },
        )
        | inl (ok, bytes) ↦
            let (err', t2, k, e', rest) =
              do_segments-Written allocated parent t1 (sector + v.bv_len / sector_size) vs fits.2 in
            (
              err',
              t2,
              suc k,
              segments-go allocated parent success t sector v vs
                  (e ∙ ap (λ x. some (x, t1, v.mem)) ok) e',
              record {
                bytes = λ a.
                    rest.bytes a
                    ∙ ap (λ z. write_all (byte_at radix parent t1) z (take k vs) a)
                        (next_sector sector v.bv_len fits.1)
                    ∙ write_all-cong (byte_at radix parent t1)
                        (memcpy (byte_at radix parent t) (sector * sector_size) v.mem v.bv_len)
                        (sector * sector_size + v.bv_len) (take k vs) bytes a;
                ended = elim rest.ended [
                  | inl (ok', all) ↦ inl (ok', ap (λ ws. v ∷ ws) all)
                  | inr no_memory ↦ inr no_memory
                ];
              },
            )
      ]
