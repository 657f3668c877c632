-- ===== src/Tester/Image/Copies.antt =====
-- code/harness/Tester.cpp: a disk image saved and loaded, and a load whose writes fail.
use crashmonkey.Common.{
  ℕ, zero, suc, ◌+◌, ◌-◌, ◌<◌, ◌≤◌, ◌≡◌, refl, ap, ◌∙◌, inl, inr, Bool, true, false, ltb, leb, ◌&&◌,
  ltb→lt, Bool-cases, ◌>>=◌, Option, none, some, length, tabulate, get_or, arith,
}
use crashmonkey.DiskWrite.Stream.{Bytes}
use crashmonkey.CowBrd.{Page}
use crashmonkey.CowBrd.Pages.{memcpy}
use crashmonkey.Tester.Profile.{success}
use crashmonkey.Tester.Image.{
  ImageCalls, wrap, save_loop, log_snapshot_save, load_loop, load_image, log_snapshot_load,
}

-- The first n bytes are copied.
Agree : Page → Page → ℕ → Type 0
Agree dst src n = (a : ℕ) → a < n → dst a ≡ src a

Agree-memcpy :
    (dst src : Page) (n k : ℕ)
    → Agree dst src n
    → Agree (memcpy dst n (λ j. src (n + j)) k) src (n + k)
unfolding Agree memcpy
Agree-memcpy dst src n k agree a below = elim (Bool-cases (leb n a && ltb a (n + k))) [
  | inl inside ↦ rw (inside) (ap src (ground (arith, inside)))
  | inr outside ↦ rw (outside) (agree a (ground (arith, outside, below)))
]

get_or-tabulate : (n : ℕ) (f : Page) (a : ℕ) → a < n → get_or (tabulate n f) a 0 ≡ f a
get_or-tabulate zero f a below = absurd (omega arith)
get_or-tabulate (suc n) f zero below = refl
get_or-tabulate (suc n) f (suc a) below = get_or-tabulate n (λ k. f (suc k)) a (omega arith)

length-tabulate : (n : ℕ) (f : Page) → length (tabulate n f) ≡ n
length-tabulate zero f = refl
length-tabulate (suc n) f = ap suc (length-tabulate n (λ k. f (suc k)))

Agree-whole : (dst src : Page) (n m : ℕ) → ltb n m ≡ false → Agree dst src n → Agree dst src m
unfolding Agree
Agree-whole dst src n m last agree a below = agree a (ground (arith, last, below))

-- A call that always takes at least one byte of those it is given.
unfoldable pub Works : {G : Type 0} → (G → ℕ → ℕ → Option ℕ × G) → Type 0
Works {G} call =
    (g : G) (position n : ℕ)
    → (k : ℕ) × (g' : G) × (call g position n ≡ (some k, g')) × (k ≤ n) × (0 < n → 0 < k)

module _ {G : Type 0} (calls : ImageCalls G) (device_size : ℕ) where
  save_loop-step :
      (fuel : ℕ) (g g' : G) (disk clone : Page) (done k : ℕ)
      → calls.read g done (device_size - done) ≡ (some k, g')
      → save_loop calls device_size (suc fuel) g disk clone done
        ≡ (elim (ltb (wrap (done + k)) device_size) [
          | true ↦
              save_loop calls device_size fuel g' disk
                (memcpy clone done (λ j. disk (done + j)) k)
                (wrap (done + k))
          | false ↦ some (memcpy clone done (λ j. disk (done + j)) k, g')
        ])
  unfolding save_loop
  save_loop-step fuel g g' disk clone done k e =
      ap
        (λ q. elim q.0 [
          | none ↦ some (clone, q.1)
          | some c ↦ elim (ltb (wrap (done + c)) device_size) [
            | true ↦
                save_loop calls device_size fuel q.1 disk
                  (memcpy clone done (λ j. disk (done + j)) c) (wrap (done + c))
            | false ↦ some (memcpy clone done (λ j. disk (done + j)) c, q.1)
          ]
        ])
        e

  load_loop-step :
      (fuel : ℕ) (g g' : G) (disk clone : Page) (done k : ℕ)
      → calls.write g done (device_size - done) ≡ (some k, g')
      → load_loop calls device_size (suc fuel) g disk clone done done
        ≡ (elim (ltb (wrap (done + k)) device_size) [
          | true ↦
              load_loop calls device_size fuel g'
                (memcpy disk done (λ j. clone (done + j)) k)
                clone
                (done + k)
                (wrap (done + k))
          | false ↦ some (memcpy disk done (λ j. clone (done + j)) k, g')
        ])
  unfolding load_loop
  load_loop-step fuel g g' disk clone done k e =
      ap
        (λ q. elim q.0 [
          | none ↦ elim (ltb (wrap (done + 4294967295)) device_size) [
            | true ↦ load_loop calls device_size fuel q.1 disk clone done (wrap (done + 4294967295))
            | false ↦ some (disk, q.1)
          ]
          | some c ↦ elim (ltb (wrap (done + c)) device_size) [
            | true ↦
                load_loop calls device_size fuel q.1 (memcpy disk done (λ j. clone (done + j)) c)
                  clone (done + c) (wrap (done + c))
            | false ↦ some (memcpy disk done (λ j. clone (done + j)) c, q.1)
          ]
        ])
        e

  unwrap :
      (done k : ℕ)
      → device_size < 4294967296
      → done ≤ device_size
      → k ≤ device_size - done
      → wrap (done + k) ≡ done + k
  unwrap done k small inside most = omega arith

  save_loop-Agree :
      Works calls.read
      → device_size < 4294967296
      → (fuel : ℕ) (g : G) (disk clone : Page) (done : ℕ) → done ≤ device_size
      → device_size - done < fuel
      → Agree clone disk done
      → (clone' : Page) × (g' : G) × (save_loop calls device_size fuel g disk clone done
          ≡ some (clone', g'))
        × Agree clone' disk device_size
  unfolding Works
  save_loop-Agree works small zero g disk clone done inside room agree = absurd (omega arith)
  save_loop-Agree works small (suc fuel) g disk clone done inside room agree =
      let (k, g1, e, most, moves) = works g done (device_size - done) in
      let clone1 = memcpy clone done (λ j. disk (done + j)) k in
      let agree1 = Agree-memcpy clone disk done k agree in
      let step = save_loop-step fuel g g1 disk clone done k e in
      let next : ℕ → Bool → Option (Page × G) = λ n b. elim b [
        | true ↦ save_loop calls device_size fuel g1 disk clone1 n
        | false ↦ some (clone1, g1)
      ] in
      let plain = step ∙ ap (λ n. next n (ltb n device_size)) (unwrap done k small inside most) in
      elim (Bool-cases (ltb (done + k) device_size)) [
        | inl more ↦
            let (clone', g', runs, all) =
              save_loop-Agree works small fuel g1 disk clone1 (done + k)
                (omega (arith, ltb→lt _ _ more)) (omega (arith, ltb→lt _ _ more, moves)) agree1 in
            (clone', g', plain ∙ ap (next (done + k)) more ∙ runs, all)
        | inr last ↦ (
          clone1,
          g1,
          plain ∙ ap (next (done + k)) last,
          Agree-whole clone1 disk (done + k) device_size last agree1,
        )
      ]

  load_loop-Agree :
      Works calls.write
      → device_size < 4294967296
      → (fuel : ℕ) (g : G) (disk clone : Page) (done : ℕ) → done ≤ device_size
      → device_size - done < fuel
      → Agree disk clone done
      → (disk' : Page) × (g' : G) × (load_loop calls device_size fuel g disk clone done done
          ≡ some (disk', g'))
        × Agree disk' clone device_size
  unfolding Works
  load_loop-Agree works small zero g disk clone done inside room agree = absurd (omega arith)
  load_loop-Agree works small (suc fuel) g disk clone done inside room agree =
      let (k, g1, e, most, moves) = works g done (device_size - done) in
      let disk1 = memcpy disk done (λ j. clone (done + j)) k in
      let agree1 = Agree-memcpy disk clone done k agree in
      let step = load_loop-step fuel g g1 disk clone done k e in
      let next : ℕ → Bool → Option (Page × G) = λ n b. elim b [
        | true ↦ load_loop calls device_size fuel g1 disk1 clone (done + k) n
        | false ↦ some (disk1, g1)
      ] in
      let plain = step ∙ ap (λ n. next n (ltb n device_size)) (unwrap done k small inside most) in
      elim (Bool-cases (ltb (done + k) device_size)) [
        | inl more ↦
            let (disk', g', runs, all) =
              load_loop-Agree works small fuel g1 disk1 clone (done + k)
                (omega (arith, ltb→lt _ _ more)) (omega (arith, ltb→lt _ _ more, moves)) agree1 in
            (disk', g', plain ∙ ap (next (done + k)) more ∙ runs, all)
        | inr last ↦ (
          disk1,
          g1,
          plain ∙ ap (next (done + k)) last,
          Agree-whole disk1 clone (done + k) device_size last agree1,
        )
      ]

  load_image-of :
      (g g' : G) (disk disk' : Page) (file : Bytes)
      → length file ≡ device_size
      → load_loop calls device_size
          (suc device_size)
          (calls.wipe g disk).1
          (calls.wipe g disk).0
          (λ a. get_or file a 0)
          0
          0
        ≡ some (disk', g')
      → log_snapshot_load calls device_size g disk file ≡ some (success, disk', calls.finish g')
  unfolding log_snapshot_load load_image
  load_image-of g g' disk disk' file long runs =
      let not_longer : ltb device_size (length file) ≡ false = ground (arith, long) in
      let not_shorter : ltb (length file) device_size ≡ false = ground (arith, long) in
      let w = calls.wipe g disk in
      ap
        (λ b. elim b [
          | true ↦ none
          | false ↦ load_image calls device_size (ltb (length file) device_size) w.1 w.0 file
        ])
        not_longer
      ∙ ap (λ b. load_image calls device_size b w.1 w.0 file) not_shorter
      ∙ ap (λ o. o >>= (λ q. some (success, q.0, calls.finish q.1))) runs

  save-of :
      (g g' : G) (disk stale clone' : Page)
      → save_loop calls device_size (suc device_size) g disk stale 0 ≡ some (clone', g')
      → log_snapshot_save calls device_size g disk stale false
        ≡ some (success, tabulate device_size clone', g')
  unfolding log_snapshot_save
  save-of g g' disk stale clone' runs =
      ap (λ o. o >>= (λ q. some (success, tabulate device_size q.0, q.1))) runs

  -- Where each read and each write of the device takes at least one byte of those it is given and
  -- none more, device_size is below 2^32 and the file can be written, log_snapshot_save returns
  -- SUCCESS, and log_snapshot_load of the file that it wrote returns SUCCESS too and leaves on the
  -- disk, whatever was there, the device_size bytes that were saved.
  pub log_snapshot_load-save :
      Works calls.read
      → Works calls.write
      → device_size < 4294967296
      → (g g2 : G) (disk stale other : Page)
      → (file : Bytes) × (g1 : G) × (disk' : Page) × (g3 : G) × (log_snapshot_save calls device_size
            g disk stale false
          ≡ some (success, file, g1))
        × (log_snapshot_load calls device_size g2 other file ≡ some (success, disk', g3))
        × ((a : ℕ) → a < device_size → disk' a ≡ disk a)
  unfolding Agree
  log_snapshot_load-save reads writes small g g2 disk stale other =
      let (clone, g1, saves, same) =
        save_loop-Agree reads small (suc device_size) g disk stale 0 (omega arith) (omega arith)
          (λ a none_below. absurd (omega arith)) in
      let file = tabulate device_size clone in
      let (disk', g3, loads, same') =
        load_loop-Agree writes small (suc device_size) (calls.wipe g2 other).1
          (calls.wipe g2 other).0 (λ a. get_or file a 0) 0 (omega arith) (omega arith)
          (λ a none_below. absurd (omega arith)) in
      (
        file,
        g1,
        disk',
        calls.finish g3,
        save-of g g1 disk stale clone saves,
        load_image-of g2 g3 other disk' file (length-tabulate device_size clone) loads,
        λ a below. same' a below ∙ get_or-tabulate device_size clone a below ∙ same a below,
      )

  load_loop-failed :
      (fuel : ℕ) (g : G) (disk clone : Page)
      → (calls.write g 0 (device_size - 0)).0 ≡ none
      → ltb (wrap (0 + 4294967295)) device_size ≡ false
      → load_loop calls device_size (suc fuel) g disk clone 0 0
        ≡ some (disk, (calls.write g 0 (device_size - 0)).1)
  unfolding load_loop
  load_loop-failed fuel g disk clone e last =
      let g' = (calls.write g 0 (device_size - 0)).1 in
      ap
        (λ o. elim o [
          | none ↦ elim (ltb (wrap (0 + 4294967295)) device_size) [
            | true ↦ load_loop calls device_size fuel g' disk clone 0 (wrap (0 + 4294967295))
            | false ↦ some (disk, g')
          ]
          | some k ↦ elim (ltb (wrap (0 + k)) device_size) [
            | true ↦
                load_loop calls device_size fuel g' (memcpy disk 0 (λ j. clone (0 + j)) k) clone
                  (0 + k) (wrap (0 + k))
            | false ↦ some (memcpy disk 0 (λ j. clone (0 + j)) k, g')
          ]
        ])
        e
      ∙ ap
          (λ b. elim b [
            | true ↦ load_loop calls device_size fuel g' disk clone 0 (wrap (0 + 4294967295))
            | false ↦ some (disk, g')
          ])
          last

  -- Where every write to the device fails, device_size is below 2^32 and the file has device_size
  -- bytes, log_snapshot_load returns SUCCESS and leaves the wiped disk.
  pub log_snapshot_load-fails :
      ((g : G) (position n : ℕ) → (calls.write g position n).0 ≡ none)
      → device_size < 4294967296
      → (g : G) (disk : Page) (file : Bytes) → length file ≡ device_size
      → (g' : G) × (log_snapshot_load calls device_size g disk file
          ≡ some (success, (calls.wipe g disk).0, g'))
  log_snapshot_load-fails fails small g disk file long =
      let w = calls.wipe g disk in
      let q = calls.write w.1 0 (device_size - 0) in
      let last : ltb (wrap (0 + 4294967295)) device_size ≡ false = ground (arith, small) in
      (
        calls.finish q.1,
        load_image-of g q.1 disk w.0 file long (
            load_loop-failed device_size w.1 w.0 (λ a. get_or file a 0)
              (fails w.1 0 (device_size - 0)) last),
      )
