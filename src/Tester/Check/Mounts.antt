-- ===== src/Tester/Check/Mounts.antt =====
-- code/harness/Tester.cpp: Tester's `disk_mounted` beside what is mounted at the mount point.
use crashmonkey.Common.{
  ℕ, zero, suc, ◌+◌, ◌-◌, ◌*◌, ◌<◌, ◌≡◌, refl, sym, ap, ◌∙◌, inl, inr, Bool, true, false, not,
  Option, none, some, List, [], ◌∷◌, ltb, ◌==◌, if◌then◌else◌, Bool-cases, Option-cases, arith,
}
use mathlib.Core.Path.{subst}
use mathlib.Core.Bool.{false≢true}
use crashmonkey.DiskWrite.Meta.{ReqBits}
use crashmonkey.DiskWrite.{DiskWrite, has_write_flag}
use crashmonkey.DiskWrite.Stream.{}
use crashmonkey.CowBrd.{Page}
use crashmonkey.CowBrd.Pages.{memcpy}
use crashmonkey.Tester.WriteData.{
  Calls, sector_size, bytes_of, write_rest, write_request, test_write_data,
}
use crashmonkey.Tester.Check.{Machine, State, mount_device, umount_if, umount_device}

-- A mount that works adds a file system, an umount that works takes one away, and no other call
-- changes how many there are.
pub record IsMachine {G : Type 0} (os : Machine G) : Type 0 where
  pub mounts :
      (g : G) (d : Page)
      → os.mount_count (os.mount g d).2
        ≡ (if (os.mount g d).0 then suc (os.mount_count g) else os.mount_count g)
  pub umounts :
      (g : G) (d : Page)
      → os.mount_count (os.umount g d).2
        ≡ (if (os.umount g d).0 then os.mount_count g - 1 else os.mount_count g)
  pub generates : (g : G) → os.mount_count (os.generate g).2 ≡ os.mount_count g
  pub opens : (g : G) → os.mount_count (os.open_snapshot g).1 ≡ os.mount_count g
  pub restores : (g : G) → os.mount_count (os.restore g).1 ≡ os.mount_count g
  pub fscks : (g : G) (d : Page) → os.mount_count (os.fsck g d).2 ≡ os.mount_count g
  pub checks : (g : G) (d : Page) → os.mount_count (os.check_test g d).3 ≡ os.mount_count g

-- How many file systems `disk_mounted` stands for.
abbrev pub count_of : Bool → ℕ
count_of false = 0
count_of true = 1

module _ {G : Type 0} (os : Machine G) where
  -- umount works where a file system is mounted.
  unfoldable pub AlwaysUmounts : Type 0
  AlwaysUmounts = (g : G) (d : Page) → 0 < os.mount_count g → (os.umount g d).0 ≡ true

  -- The flag is right.
  unfoldable pub IsMounted : State G → Type 0
  IsMounted s = os.mount_count s.world ≡ count_of s.disk_mounted

  -- No file system is mounted, and the flag says so.
  unfoldable pub IsDry : State G → Type 0
  IsDry s = (s.disk_mounted ≡ false) × (os.mount_count s.world ≡ 0)

  mounted_count : (b : Bool) (n : ℕ) → n ≡ 0 → (if b then suc n else n) ≡ count_of b
  mounted_count true n e = ap suc e
  mounted_count false n e = e

  module _ (law : IsMachine os) where
    pub mount_device-IsMounted : (s : State G) → IsDry s → IsMounted (mount_device os s).1
    unfolding IsDry IsMounted mount_device
    mount_device-IsMounted s (flag, dry) =
        law.mounts s.world s.disk
        ∙ mounted_count (os.mount s.world s.disk).0 (os.mount_count s.world) dry

    pub umount_if-success :
        AlwaysUmounts
        → (s : State G) (b : Bool) → s.disk_mounted ≡ b
        → IsMounted s
        → (umount_if os s b).0 ≡ true
    unfolding AlwaysUmounts IsMounted umount_if
    umount_if-success always s false was m = refl
    umount_if-success always s true was m =
        always s.world s.disk (omega (arith, m ∙ ap count_of was))

    pub umount_if-IsDry :
        AlwaysUmounts
        → (s : State G) (b : Bool) → s.disk_mounted ≡ b
        → IsMounted s
        → IsDry (umount_if os s b).1
    unfolding AlwaysUmounts IsMounted IsDry umount_if
    umount_if-IsDry always s false was m = (refl, m ∙ ap count_of was)
    umount_if-IsDry always s true was m =
        let one = m ∙ ap count_of was in
        let works = always s.world s.disk (omega (arith, one)) in
        (
          ap not works,
          law.umounts s.world s.disk
              ∙ ap (λ b. if b then os.mount_count s.world - 1 else os.mount_count s.world) works
              ∙ ap (λ n. n - 1) one,
        )

    -- umount_device where it may fail: the flag stays right.
    umounted-IsMounted : (b : Bool) (n : ℕ) → n ≡ 1 → (if b then n - 1 else n) ≡ count_of (not b)
    umounted-IsMounted true n e = ap (λ k. k - 1) e
    umounted-IsMounted false n e = e

    pub umount_if-IsMounted :
        (s : State G) (b : Bool) → s.disk_mounted ≡ b → IsMounted s → IsMounted (umount_if os s b).1
    unfolding IsMounted umount_if
    umount_if-IsMounted s false was m = m ∙ ap count_of was
    umount_if-IsMounted s true was m =
        law.umounts s.world s.disk
        ∙ umounted-IsMounted (os.umount s.world s.disk).0 (os.mount_count s.world)
            (m ∙ ap count_of was)

    left_mounted :
        (s : State G) (mounts : Bool) (n : ℕ)
        → s.disk_mounted ≡ mounts
        → mounts ≡ false
        → os.mount_count s.world ≡ n
        → ((umount_if os s mounts).0 ≡ true) × (os.mount_count (umount_if os s mounts).1.world ≡ n)
    unfolding umount_if
    left_mounted s false n flag off e = (refl, e)
    left_mounted s true n flag off e = absurd (false≢true (sym off))

    -- Where a file system is mounted at the mount point and a further mount_device fails,
    -- umount_device behind it returns SUCCESS and leaves the file system mounted, if a mount that
    -- fails changes nothing that is mounted.
    pub mount_device-forgets :
        (s : State G)
        → 0 < os.mount_count s.world
        → (mount_device os s).0 ≡ false
        → ((umount_device os (mount_device os s).1).0 ≡ true)
          × (0 < os.mount_count (umount_device os (mount_device os s).1).1.world)
    unfolding mount_device umount_device
    mount_device-forgets s mounted fails =
        let keeps : os.mount_count (os.mount s.world s.disk).2 ≡ os.mount_count s.world =
          law.mounts s.world s.disk
          ∙ ap (λ b. if b then suc (os.mount_count s.world) else os.mount_count s.world) fails in
        let (returns, stays) =
          left_mounted (mount_device os s).1 (os.mount s.world s.disk).0 (os.mount_count s.world)
            refl fails keeps in
        (returns, omega (arith, stays, mounted))

module _ {G : Type 0} (r : ReqBits) (calls : Calls G) (count : G → ℕ) where
  -- Writing to a disk mounts nothing.
  unfoldable pub KeepsMounts : Type 0
  KeepsMounts = (g : G) (addr n : ℕ) → count (calls.after g addr n) ≡ count g

  Leaves : ℕ → Option (G × Bool × Page) → Type 0
  Leaves n none = Unit
  Leaves n (some p) = count p.0 ≡ n

  pieces-Leaves :
      (n : ℕ) (g' : G) (disk disk' : Page) (ends : Bool) (more : Option (G × Bool × Page))
      → count g' ≡ n
      → Leaves n more
      → Leaves n (elim ends [ true ↦ more | false ↦ some (g', true, disk') ])
  unfolding Leaves
  pieces-Leaves n g' disk disk' true more e rest = rest
  pieces-Leaves n g' disk disk' false more e rest = e

  module _ (keeps : KeepsMounts) where
    write_rest-Leaves :
        (fuel : ℕ) (g : G) (disk : Page) (addr : ℕ) (src : Page) (size written n : ℕ)
        → count g ≡ n
        → Leaves n (write_rest r calls fuel g disk addr src size written)
    unfolding write_rest Leaves KeepsMounts
    write_rest-Leaves zero g disk addr src size written n e = tt
    write_rest-Leaves (suc fuel) g disk addr src size written n e =
        let g' = calls.after g (addr + written) (size - written) in
        let same = keeps g (addr + written) (size - written) ∙ e in
        elim (Option-cases (calls.write g (addr + written) (size - written))) [
          | inl fails ↦ rw (fails, write_rest) same
          | inr (res, takes) ↦
              let disk' = memcpy disk (addr + written) (λ j. src (written + j)) res in
              rw (takes, write_rest)
                (pieces-Leaves n g' disk disk' (ltb (written + res) size)
                  (write_rest r calls fuel g' disk' addr src size (written + res)) same
                  (write_rest-Leaves fuel g' disk' addr src size (written + res) n same))
        ]

    write_request-Leaves :
        (g : G) (disk : Page) (w : DiskWrite) (n : ℕ)
        → count g ≡ n
        → Leaves n (write_request r calls g disk w)
    unfolding write_request Leaves
    write_request-Leaves g disk w n e =
        let addr = w.metadata.write_sector * sector_size in
        let size = w.metadata.size in
        let writes = λ (src : Page). write_rest-Leaves (1 + size) g disk addr src size 0 n e in
        elim (Bool-cases (calls.seeks addr)) [
          | inr stuck ↦ rw (stuck, write_request) e
          | inl there ↦ elim (Option-cases w.data_ptr) [
            | inr (d, has) ↦ rw (there, has, write_request) (writes (bytes_of d))
            | inl lacks ↦ elim (Bool-cases (size == 0)) [
              | inl empty ↦ rw (there, lacks, empty, write_request) (writes (bytes_of []))
              | inr more ↦ rw (there, lacks, more, write_request) e
            ]
          ]
        ]

    test_write_data-Leaves :
        (g : G) (disk : Page) (ws : List DiskWrite) (n : ℕ)
        → count g ≡ n
        → Leaves n (test_write_data r calls g disk ws)
    unfolding test_write_data Leaves
    test_write_data-Leaves g disk [] n e = e
    test_write_data-Leaves g disk (w ∷ ws) n e = elim (Bool-cases (has_write_flag r w)) [
      | inr skips ↦ rw (skips, test_write_data) (test_write_data-Leaves g disk ws n e)
      | inl writes ↦
          let first = write_request-Leaves g disk w n e in
          elim (Option-cases (write_request r calls g disk w)) [
            | inl out ↦ rw (writes, out, test_write_data) tt
            | inr ((g', ok, disk'), is) ↦
                let same : count g' ≡ n = subst (Leaves n) is first in
                elim (Bool-cases ok) [
                  | inr failed ↦ rw (writes, is, failed, test_write_data) same
                  | inl done ↦
                      rw (writes, is, done, test_write_data)
                        (test_write_data-Leaves g' disk' ws n same)
                ]
          ]
    ]

    pub test_write_data-keeps :
        (g g' : G) (disk disk' : Page) (ws : List DiskWrite) (ok : Bool)
        → test_write_data r calls g disk ws ≡ some (g', ok, disk')
        → count g' ≡ count g
    unfolding Leaves
    test_write_data-keeps g g' disk disk' ws ok e =
        subst (Leaves (count g)) e (test_write_data-Leaves g disk ws (count g) refl)
