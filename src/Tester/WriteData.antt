-- ===== src/Tester/WriteData.antt =====
-- code/harness/Tester.cpp: test_write_data, which writes the requests of a crash state to a disk. The
-- disk is its bytes; lseek and write are parameters, where `none` is a negative result.
use crashmonkey.Common.{
  ℕ, zero, suc, ◌+◌, ◌-◌, ◌*◌, ◌≤◌, ◌<◌, ◌≡◌, ◌≢◌, refl, sym, ap, ◌∙◌, inl, inr, Bool, true, false,
  Option, none, some, List, [], ◌∷◌, All, get_or, ltb, ◌==◌, ==_iff, ltb→lt, Bool-cases,
  Option-cases, arith,
}
use mathlib.Core.Bool.{false≢true}
use crashmonkey.DiskWrite.Meta.{ReqBits}
use crashmonkey.DiskWrite.{DiskWrite, has_write_flag}
use crashmonkey.DiskWrite.Stream.{Bytes}
use crashmonkey.CowBrd.{Page}
use crashmonkey.CowBrd.Pages.{memcpy}
use crashmonkey.CowBrd.Reads.{memcpy-ext}
use crashmonkey.CowBrd.Transfers.{memcpy-split}

-- The calls, over what else the system's state is: `seeks` of an address, and how many bytes a
-- write of n bytes at an address takes.
pub record Calls (G : Type 0) : Type 0 where
  pub seeks : ℕ → Bool
  pub write : G → ℕ → ℕ → Option ℕ
  pub after : G → ℕ → ℕ → G

-- SECTOR_SIZE
abbrev pub sector_size : ℕ
sector_size = 512

unfoldable pub bytes_of : Bytes → Page
bytes_of d k = get_or d k 0

-- What a null buffer holds does not matter: only requests of size 0 have one.
unfoldable pub buffer_of : Option Bytes → Page
buffer_of none = bytes_of []
buffer_of (some d) = bytes_of d

unfoldable pub HasBuffer : DiskWrite → Type 0
HasBuffer w = w.data_ptr ≡ none → w.metadata.size ≡ 0

-- The disk with the data of each request that writes at its place, one after the other.
unfoldable pub replay_writes : ReqBits → Page → List DiskWrite → Page
replay_writes r disk [] = disk
replay_writes r disk (w ∷ ws) = elim (has_write_flag r w) [
  | false ↦ replay_writes r disk ws
  | true ↦
      replay_writes r
        (memcpy disk (w.metadata.write_sector * sector_size) (buffer_of w.data_ptr) w.metadata.size)
        ws
]

module _ {G : Type 0} (calls : Calls G) where
  -- write(2) takes at most what it is given, and something unless it is given nothing.
  pub record IsWrite : Type 0 where
    pub at_most : (g : G) (addr n k : ℕ) → calls.write g addr n ≡ some k → k ≤ n
    pub progress : (g : G) (addr n k : ℕ) → calls.write g addr n ≡ some k → 0 < n → 0 < k

  pub record NoErrors : Type 0 where
    pub seeks_all : (addr : ℕ) → calls.seeks addr ≡ true
    pub writes_all : (g : G) (addr n : ℕ) → calls.write g addr n ≢ none

module _ {G : Type 0} (r : ReqBits) (calls : Calls G) where
  -- The inner loop. `none`: the fuel ran out.
  unfoldable pub write_rest : ℕ → G → Page → ℕ → Page → ℕ → ℕ → Option (G × Bool × Page)
  write_rest zero g disk addr src size written = none
  write_rest (suc fuel) g disk addr src size written =
      elim (calls.write g (addr + written) (size - written)) [
        | none ↦ some (calls.after g (addr + written) (size - written), false, disk)
        | some res ↦
            let g' = calls.after g (addr + written) (size - written) in
            let disk' = memcpy disk (addr + written) (λ j. src (written + j)) res in
            elim (ltb (written + res) size) [
              | true ↦ write_rest fuel g' disk' addr src size (written + res)
              | false ↦ some (g', true, disk')
            ]
      ]

  -- A buffer that is null can only be written where nothing is.
  unfoldable pub write_request : G → Page → DiskWrite → Option (G × Bool × Page)
  write_request g disk w =
      let addr = w.metadata.write_sector * sector_size in
      let size = w.metadata.size in
      elim (calls.seeks addr) [
        | false ↦ some (g, false, disk)
        | true ↦ elim w.data_ptr [
          | some d ↦ write_rest (1 + size) g disk addr (bytes_of d) size 0
          | none ↦ elim (size == 0) [
            | true ↦ write_rest (1 + size) g disk addr (bytes_of []) size 0
            | false ↦ some (g, false, disk)
          ]
        ]
      ]

  unfoldable pub test_write_data : G → Page → List DiskWrite → Option (G × Bool × Page)
  test_write_data g disk [] = some (g, true, disk)
  test_write_data g disk (w ∷ ws) = elim (has_write_flag r w) [
    | false ↦ test_write_data g disk ws
    | true ↦ elim (write_request g disk w) [
      | none ↦ none
      | some result ↦
          let (g', ok, disk') = result in
          elim ok [ true ↦ test_write_data g' disk' ws | false ↦ some (g', false, disk') ]
    ]
  ]

  rest-failed :
      (fuel : ℕ) (g : G) (disk : Page) (addr : ℕ) (src : Page) (size written : ℕ)
      → calls.write g (addr + written) (size - written) ≡ none
      → write_rest (suc fuel) g disk addr src size written
        ≡ some (calls.after g (addr + written) (size - written), false, disk)
  unfolding write_rest
  rest-failed fuel g disk addr src size written e = rw (e, write_rest) refl

  rest-more :
      (fuel : ℕ) (g : G) (disk : Page) (addr : ℕ) (src : Page) (size written res : ℕ)
      → calls.write g (addr + written) (size - written) ≡ some res
      → ltb (written + res) size ≡ true
      → write_rest (suc fuel) g disk addr src size written
        ≡ write_rest fuel
            (calls.after g (addr + written) (size - written))
            (memcpy disk (addr + written) (λ j. src (written + j)) res)
            addr
            src
            size
            (written + res)
  unfolding write_rest
  rest-more fuel g disk addr src size written res e f = rw (e, f, write_rest) refl

  rest-done :
      (fuel : ℕ) (g : G) (disk : Page) (addr : ℕ) (src : Page) (size written res : ℕ)
      → calls.write g (addr + written) (size - written) ≡ some res
      → ltb (written + res) size ≡ false
      → write_rest (suc fuel) g disk addr src size written
        ≡ some (
          calls.after g (addr + written) (size - written),
          true,
          memcpy disk (addr + written) (λ j. src (written + j)) res,
        )
  unfolding write_rest
  rest-done fuel g disk addr src size written res e f = rw (e, f, write_rest) refl

  -- The end of a write of n bytes: on true they are all at their addresses, and no other changed.
  Ends : Option (G × Bool × Page) → Page → ℕ → Page → ℕ → Type 0
  Ends o disk addr src n =
      (g' : G) × (ok : Bool) × (disk' : Page) × (o ≡ some (g', ok, disk'))
      × (ok ≡ true → (a : ℕ) → disk' a ≡ memcpy disk addr src n a)
      × (NoErrors calls → ok ≡ true)

  joined :
      (disk : Page) (addr : ℕ) (src : Page) (size written k a : ℕ)
      → k ≤ size - written
      → memcpy
          (memcpy disk (addr + written) (λ j. src (written + j)) k)
          (addr + (written + k))
          (λ j. src ((written + k) + j))
          (size - (written + k))
          a
        ≡ memcpy disk (addr + written) (λ j. src (written + j)) (size - written) a
  joined disk addr src size written k a h =
      let disk1 = memcpy disk (addr + written) (λ j. src (written + j)) k in
      memcpy-ext disk1 disk1 (addr + (written + k)) _ (λ j. src (written + (k + j)))
        (size - (written + k)) a refl (λ j lt. ap src (omega arith))
      ∙ ap (λ z. memcpy disk1 z (λ j. src (written + (k + j))) (size - (written + k)) a)
          {y = (addr + written) + k} (omega arith)
      ∙ ap (λ z. memcpy disk1 ((addr + written) + k) (λ j. src (written + (k + j))) z a)
          {y = (size - written) - k} (omega arith)
      ∙ memcpy-split disk (addr + written) (λ j. src (written + j)) k (size - written) a h

  write_rest-Ends :
      IsWrite calls
      → (fuel : ℕ) (g : G) (disk : Page) (addr : ℕ) (src : Page) (size written : ℕ) → written ≤ size
      → size - written < fuel
      → Ends
          (write_rest fuel g disk addr src size written)
          disk
          (addr + written)
          (λ j. src (written + j))
          (size - written)
  unfolding Ends
  write_rest-Ends law zero g disk addr src size written h h' = absurd (omega arith)
  write_rest-Ends law (suc fuel) g disk addr src size written h h' =
      let n = size - written in
      let g1 = calls.after g (addr + written) n in
      elim (Option-cases (calls.write g (addr + written) n)) [
        | inl e ↦ (
          g1,
          false,
          disk,
          rest-failed fuel g disk addr src size written e,
          λ no. absurd (false≢true no),
          λ none_fails. absurd (none_fails.writes_all g (addr + written) n e),
        )
        | inr (k, e) ↦
            let most = law.at_most g (addr + written) n k e in
            let disk1 = memcpy disk (addr + written) (λ j. src (written + j)) k in
            elim (Bool-cases (ltb (written + k) size)) [
              | inr last ↦
                  let whole : k ≡ n = ground (arith, last, most) in
                  (
                    g1,
                    true,
                    disk1,
                    rest-done fuel g disk addr src size written k e last,
                    λ ok a.
                        ap (λ c. memcpy disk (addr + written) (λ j. src (written + j)) c a) whole,
                    λ none_fails. refl,
                  )
              | inl more ↦
                  let less : written + k < size = ltb→lt (written + k) size more in
                  let moved = law.progress g (addr + written) n k e (omega arith) in
                  let (g', ok, disk', e', bytes, works) =
                    write_rest-Ends law fuel g1 disk1 addr src size (written + k) (omega arith)
                      (omega (arith, moved)) in
                  (
                    g',
                    ok,
                    disk',
                    rest-more fuel g disk addr src size written k e more ∙ e',
                    λ yes a.
                        bytes yes a ∙ joined disk addr src size written k a (omega (arith, most)),
                    works,
                  )
            ]
      ]

  replay-cong :
      (d e : Page) (ws : List DiskWrite)
      → ((a : ℕ) → d a ≡ e a)
      → (a : ℕ) → replay_writes r d ws a ≡ replay_writes r e ws a
  unfolding replay_writes
  replay-cong d e [] h a = h a
  replay-cong d e (w ∷ ws) h a = elim (Bool-cases (has_write_flag r w)) [
    | inr skips ↦ rw (skips, replay_writes) (replay-cong d e ws h a)
    | inl writes ↦
        let addr = w.metadata.write_sector * sector_size in
        let src = buffer_of w.data_ptr in
        rw (writes, replay_writes)
          (replay-cong (memcpy d addr src w.metadata.size) (memcpy e addr src w.metadata.size) ws
            (λ b. memcpy-ext d e addr src src w.metadata.size b (h b) (λ j lt. refl)) a)
  ]

  rest-Ends :
      IsWrite calls
      → (g : G) (disk : Page) (addr : ℕ) (src : Page) (size : ℕ)
      → Ends (write_rest (1 + size) g disk addr src size 0) disk addr src size
  unfolding Ends
  rest-Ends law g disk addr src size =
      let (g', ok, disk', e, bytes, works) =
        write_rest-Ends law (1 + size) g disk addr src size 0 (omega arith) (omega arith) in
      (
        g',
        ok,
        disk',
        e,
        λ all a.
            bytes all a
            ∙ memcpy-ext disk disk (addr + 0) (λ j. src (0 + j)) src (size - 0) a refl
                (λ j lt. ap src {y = j} (omega arith))
            ∙ ap (λ z. memcpy disk z src (size - 0) a) {y = addr} (omega arith)
            ∙ ap (λ z. memcpy disk addr src z a) {y = size} (omega arith),
        works,
      )

  request-Ends :
      IsWrite calls
      → (g : G) (disk : Page) (w : DiskWrite) → HasBuffer w
      → Ends
          (write_request g disk w)
          disk
          (w.metadata.write_sector * sector_size)
          (buffer_of w.data_ptr)
          w.metadata.size
  unfolding write_request Ends HasBuffer buffer_of
  request-Ends law g disk w has =
      let addr = w.metadata.write_sector * sector_size in
      elim (Bool-cases (calls.seeks addr)) [
        | inr stuck ↦ (
          g,
          false,
          disk,
          rw (stuck, write_request) refl,
          λ no. absurd (false≢true no),
          λ none_fails. sym stuck ∙ none_fails.seeks_all addr,
        )
        | inl there ↦ elim (Option-cases w.data_ptr) [
          | inr (d, e) ↦
              let (g', ok, disk', e', bytes, works) =
                rest-Ends law g disk addr (bytes_of d) w.metadata.size in
              (
                g',
                ok,
                disk',
                rw (there, e, write_request) e',
                λ all a.
                    bytes all a
                    ∙ ap (λ p. memcpy disk addr (buffer_of p) w.metadata.size a) (sym e),
                works,
              )
          | inl e ↦
              let empty : (w.metadata.size == 0) ≡ true = (==_iff w.metadata.size 0).1 (has e) in
              let (g', ok, disk', e', bytes, works) =
                rest-Ends law g disk addr (bytes_of []) w.metadata.size in
              (
                g',
                ok,
                disk',
                rw (there, e, empty, write_request) e',
                λ all a.
                    bytes all a
                    ∙ ap (λ p. memcpy disk addr (buffer_of p) w.metadata.size a) (sym e),
                works,
              )
        ]
      ]

  test_write_data_outcome :
      IsWrite calls
      → (g : G) (disk : Page) (ws : List DiskWrite) → All HasBuffer ws
      → (g' : G) × (ok : Bool) × (disk' : Page) × (test_write_data g disk ws ≡ some (g', ok, disk'))
        × (ok ≡ true → (a : ℕ) → disk' a ≡ replay_writes r disk ws a)
        × (NoErrors calls → ok ≡ true)
  unfolding test_write_data replay_writes Ends
  test_write_data_outcome law g disk [] has =
      (g, true, disk, refl, λ all a. refl, λ none_fails. refl)
  test_write_data_outcome law g disk (w ∷ ws) has = elim (Bool-cases (has_write_flag r w)) [
    | inr skips ↦
        let (g', ok, disk', e, bytes, works) = test_write_data_outcome law g disk ws has.1 in
        (
          g',
          ok,
          disk',
          rw (skips, test_write_data) e,
          λ all a. rw (skips, replay_writes) (bytes all a),
          works,
        )
    | inl writes ↦
        let (g1, ok1, disk1, e1, bytes1, works1) = request-Ends law g disk w has.0 in
        elim (Bool-cases ok1) [
          | inr failed ↦ (
            g1,
            false,
            disk1,
            rw (writes, e1, failed, test_write_data) refl,
            λ no. absurd (false≢true no),
            λ none_fails. sym failed ∙ works1 none_fails,
          )
          | inl done ↦
              let (g', ok, disk', e, bytes, works) =
                test_write_data_outcome law g1 disk1 ws has.1 in
              (
                g',
                ok,
                disk',
                rw (writes, e1, done, test_write_data) e,
                λ all a.
                    rw (writes, replay_writes)
                      (bytes all a ∙ replay-cong disk1 _ ws (bytes1 done) a),
                works,
              )
        ]
  ]

  -- test_write_data returns, if each write takes something of what it is given and not more, and
  -- requests without a buffer have size 0; and if it returns true, the disk is the old one with
  -- the data of each request that has the write flag at its sector, one after the other.
  pub test_write_data-replay :
      IsWrite calls
      → (g : G) (disk : Page) (ws : List DiskWrite) → All HasBuffer ws
      → (g' : G) × (ok : Bool) × (disk' : Page) × (test_write_data g disk ws ≡ some (g', ok, disk'))
        × (ok ≡ true → (a : ℕ) → disk' a ≡ replay_writes r disk ws a)
  test_write_data-replay law g disk ws has =
      let (g', ok, disk', e, bytes, works) = test_write_data_outcome law g disk ws has in
      (g', ok, disk', e, bytes)

  -- Where no call fails, each write takes something of what it is given and not more, and requests
  -- without a buffer have size 0, test_write_data returns true, and the disk is the old one with
  -- the data of each request that has the write flag at its sector, one after the other.
  pub test_write_data-works :
      IsWrite calls
      → NoErrors calls
      → (g : G) (disk : Page) (ws : List DiskWrite) → All HasBuffer ws
      → (g' : G) × (disk' : Page) × (test_write_data g disk ws ≡ some (g', true, disk'))
        × ((a : ℕ) → disk' a ≡ replay_writes r disk ws a)
  test_write_data-works law none_fails g disk ws has =
      let (g', ok, disk', e, bytes, works) = test_write_data_outcome law g disk ws has in
      let done = works none_fails in (g', disk', e ∙ ap (λ b. some (g', b, disk')) done, bytes done)
