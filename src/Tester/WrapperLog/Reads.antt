-- ===== src/Tester/WrapperLog/Reads.antt =====
-- code/harness/Tester.cpp over code/disk_wrapper.c: one round of get_wrapper_log reads one entry.
use mathlib.Core.List.{append_assoc, append-nil}
use crashmonkey.Common.{
  ℕ, zero, suc, ◌+◌, ◌-◌, ◌*◌, ◌≤◌, ◌<◌, ◌≡◌, refl, sym, ap, ◌∙◌, inl, inr, true, false, ◌==◌, none,
  some, List, [], ◌∷◌, ◌++◌, map, length, get_or, tabulate, All, arith,
}
use crashmonkey.DiskWrite.Meta.{OpMeta}
use crashmonkey.DiskWrite.{DiskWrite, make}
use crashmonkey.DiskWrite.Stream.{Bytes}
use crashmonkey.CowBrd.{Page}
use crashmonkey.CowBrd.Pages.{memcpy}
use crashmonkey.CowBrd.View.{lt_or_ge, memcpy-inside, memcpy-outside}
use crashmonkey.DiskWrapper.{Ptr, Node, HwmDevice}
use crashmonkey.DiskWrapper.Ioctl.{
  hwm_get_log_meta, hwm_get_log_data, hwm_next_ent, success, enodata, Platform, IsPlatform,
  copy_loop, copy_meta, buffer_memory, copy_data, with_entry, disk_wrapper_ioctl,
}
use crashmonkey.DiskWrapper.Chain.{Entry, node_of, Chain}
use crashmonkey.Tester.WrapperLog.{
  wrapper_success, answer, after_next, next_round, returned, next_entry, get_data, one_round,
  log_loop,
}

-- User memory can be written: access_ok says so, copy_to_user copies the struct in one go, and of
-- anything at least a byte.
pub record CanCopy (os : Platform) : Type 0 where
  pub accessible : (n : ℕ) → os.access_ok n ≡ true
  pub meta_at_once : os.not_copied os.sizeof_meta ≡ 0
  pub progress : (n : ℕ) → 0 < n → os.not_copied n < n

tabulate-cong : (n : ℕ) (f g : Page) → ((k : ℕ) → k < n → f k ≡ g k) → tabulate n f ≡ tabulate n g
tabulate-cong zero f g h = refl
tabulate-cong (suc n) f g h =
    ap (λ x. x ∷ tabulate n (λ k. f (suc k))) (h 0 (omega arith))
    ∙ ap (λ xs. g 0 ∷ xs)
        (tabulate-cong n (λ k. f (suc k)) (λ k. g (suc k)) (λ k lt. h (suc k) (omega arith)))

tabulate-get_or : (d : Bytes) → tabulate (length d) (λ k. get_or d k 0) ≡ d
tabulate-get_or [] = refl
tabulate-get_or (b ∷ bs) = ap (λ xs. b ∷ xs) (tabulate-get_or bs)

module _ (os : Platform) (can : CanCopy os) where
  copy_loop-end :
      (fuel stride : ℕ) (user src : Page) (size : ℕ)
      → copy_loop os (suc fuel) stride user src size 0 ≡ some user
  unfolding copy_loop
  copy_loop-end fuel stride user src size = refl

  copy_loop-more :
      (fuel stride : ℕ) (user src : Page) (size left : ℕ)
      → 0 < left
      → copy_loop os (suc fuel) stride user src size left
        ≡ copy_loop os fuel stride
            (memcpy user
              (size - left)
              (λ k. src (stride * (size - left) + k))
              (left - os.not_copied left))
            src
            size
            (os.not_copied left)
  unfolding copy_loop
  copy_loop-more fuel stride user src size left h =
      let some_left : (left == 0) ≡ false = ground arith in rw (some_left, copy_loop) refl

  -- With bytes on both sides, however many each call copies.
  copy_loop-bytes :
      (fuel : ℕ) (user src : Page) (size left : ℕ)
      → left < fuel
      → left ≤ size
      → ((k : ℕ) → k < size - left → user k ≡ src k)
      → (user' : Page) × (copy_loop os fuel 1 user src size left ≡ some user')
        × ((k : ℕ) → k < size → user' k ≡ src k)
  copy_loop-bytes zero user src size left h h' same = absurd (omega arith)
  copy_loop-bytes (suc fuel) user src size zero h h' same =
      (user, copy_loop-end fuel 1 user src size, λ k lt. same k (omega arith))
  copy_loop-bytes (suc fuel) user src size (suc m) h h' same =
      let left = suc m in
      let rest = os.not_copied left in
      let less : rest < left = can.progress left (omega arith) in
      let offset = size - left in
      let user1 = memcpy user offset (λ k. src (1 * offset + k)) (left - rest) in
      let (user', e, all) =
        copy_loop-bytes fuel user1 src size rest (omega (arith, less)) (omega (arith, less))
          (λ k lt. elim (lt_or_ge k offset) [
            | inl below ↦ memcpy-outside user offset _ (left - rest) k (inl below) ∙ same k below
            | inr ge ↦
                memcpy-inside user offset (λ j. src (1 * offset + j)) (left - rest) {j = k - offset}
                  (omega arith) (omega (arith, less))
                ∙ ap src (omega arith)
          ]) in
      (user', copy_loop-more fuel 1 user src size left (omega arith) ∙ e, all)

  -- In one call, whatever the stride is.
  copy_loop-once :
      (stride : ℕ) (user src : Page) (size : ℕ)
      → os.not_copied size ≡ 0
      → (user' : Page) × (copy_loop os (suc size) stride user src size size ≡ some user')
        × ((k : ℕ) → k < size → user' k ≡ src k)
  copy_loop-once stride user src zero once =
      (user, copy_loop-end 0 stride user src 0, λ k lt. absurd (omega arith))
  copy_loop-once stride user src (suc m) once =
      let size = suc m in
      let user1 =
        memcpy user (size - size) (λ k. src (stride * (size - size) + k))
          (size - os.not_copied size) in
      let none_before : size - size ≡ 0 = omega arith in
      (
        user1,
        copy_loop-more size stride user src size size (omega arith)
            ∙ ap (copy_loop os size stride user1 src size) once
            ∙ copy_loop-end m stride user1 src size,
        λ k lt.
            memcpy-inside user (size - size) (λ j. src (stride * (size - size) + j))
              (size - os.not_copied size) {j = k} (omega arith) (omega (arith, once))
            ∙ ap (λ z. src (stride * z + k)) none_before
            ∙ ap src (omega arith),
      )

-- What the reader makes of an entry.
abbrev pub read_as : Entry → DiskWrite
read_as e = make e.metadata (some e.bytes)

-- The entry's buffer is as long as its metadata says.
abbrev pub IsSized : Entry → Type 0
IsSized e = length e.bytes ≡ e.metadata.size

module _ (os : Platform) (law : IsPlatform os) (can : CanCopy os) (rounds : ℕ) where
  at-entry :
      (dev : HwmDevice) (user : Page) (p : ℕ) (n : Node) (then_do : Node → _)
      → dev.current_log_write ≡ some p
      → dev.heap p ≡ some n
      → with_entry os dev user dev.current_log_write then_do ≡ then_do n
  unfolding with_entry
  at-entry dev user p n then_do at holds =
      ap (λ c. with_entry os dev user c then_do) at ∙ rw (holds, with_entry) refl

  at-end :
      (dev : HwmDevice) (user : Page) (then_do : Node → _)
      → dev.current_log_write ≡ none
      → with_entry os dev user dev.current_log_write then_do ≡ some (enodata, dev, user)
  unfolding with_entry
  at-end dev user then_do at = ap (λ c. with_entry os dev user c then_do) at

  get_log_meta :
      (dev : HwmDevice) (user : Page) (e : Entry) (next : Ptr)
      → dev.current_log_write ≡ some e.addr
      → dev.heap e.addr ≡ some (node_of e next)
      → (user' : Page) × (disk_wrapper_ioctl os rounds dev hwm_get_log_meta user
          ≡ some (success, dev, user'))
        × (os.meta_of user' ≡ e.metadata)
  unfolding disk_wrapper_ioctl copy_meta
  get_log_meta dev user e next at holds =
      let (user', copied, same) =
        copy_loop-once os can os.sizeof_meta user (os.memory_of (node_of e next)) os.sizeof_meta
          can.meta_at_once in
      (
        user',
        at-entry dev user e.addr (node_of e next) _ at holds
            ∙ rw (can.accessible os.sizeof_meta, copied) refl,
        law.meta_back (node_of e next) user' same,
      )

  get_log_data :
      (dev : HwmDevice) (user : Page) (e : Entry) (next : Ptr)
      → IsSized e
      → dev.current_log_write ≡ some e.addr
      → dev.heap e.addr ≡ some (node_of e next)
      → (user' : Page) × (disk_wrapper_ioctl os rounds dev hwm_get_log_data user
          ≡ some (success, dev, user'))
        × (tabulate e.metadata.size user' ≡ e.bytes)
  unfolding disk_wrapper_ioctl copy_data buffer_memory
  get_log_data dev user e next sized at holds =
      let (user', copied, same) =
        copy_loop-bytes os can (suc e.metadata.size) user (λ k. get_or e.bytes k 0) e.metadata.size
          e.metadata.size (omega arith) (omega arith) (λ k lt. absurd (omega arith)) in
      (
        user',
        at-entry dev user e.addr (node_of e next) _ at holds
            ∙ rw (can.accessible e.metadata.size, copied) refl,
        tabulate-cong e.metadata.size user' (λ k. get_or e.bytes k 0) same
            ∙ ap (λ n. tabulate n (λ k. get_or e.bytes k 0)) (sym sized)
            ∙ tabulate-get_or e.bytes,
      )

  next_ent :
      (dev : HwmDevice) (user : Page) (e : Entry) (next : Ptr)
      → dev.current_log_write ≡ some e.addr
      → dev.heap e.addr ≡ some (node_of e next)
      → disk_wrapper_ioctl os rounds dev hwm_next_ent user
        ≡ some (success, record dev { current_log_write = next }, user)
  unfolding disk_wrapper_ioctl
  next_ent dev user e next at holds = at-entry dev user e.addr (node_of e next) _ at holds

  meta-step :
      (dev : HwmDevice) (user user' : Page) (log_data : List DiskWrite)
      → disk_wrapper_ioctl os rounds dev hwm_get_log_meta user ≡ some (success, dev, user')
      → one_round os rounds dev user log_data
        ≡ get_data os rounds dev user' (os.meta_of user') log_data
  unfolding one_round answer
  meta-step dev user user' log_data e = rw (e) refl

  data-step :
      (dev : HwmDevice) (user user' : Page) (m : OpMeta) (log_data : List DiskWrite)
      → disk_wrapper_ioctl os rounds dev hwm_get_log_data user ≡ some (success, dev, user')
      → get_data os rounds dev user m log_data
        ≡ next_entry os rounds dev user' (log_data ++ (make m (some (tabulate m.size user')) ∷ []))
  unfolding get_data answer
  data-step dev user user' m log_data e = rw (e) refl

  next-step :
      (dev dev' : HwmDevice) (user : Page) (log_data : List DiskWrite)
      → disk_wrapper_ioctl os rounds dev hwm_next_ent user ≡ some (success, dev', user)
      → next_entry os rounds dev user log_data ≡ some (next_round dev' user log_data)
  unfolding next_entry after_next
  next-step dev dev' user log_data e = rw (e) refl

  round-entry :
      (dev : HwmDevice) (user : Page) (log_data : List DiskWrite) (e : Entry) (next : Ptr)
      → IsSized e
      → dev.current_log_write ≡ some e.addr
      → dev.heap e.addr ≡ some (node_of e next)
      → (user' : Page) × (one_round os rounds dev user log_data
          ≡ some (
              next_round
                (record dev { current_log_write = next })
                user'
                (log_data ++ (read_as e ∷ []))))
  round-entry dev user log_data e next sized at holds =
      let (user1, e1, meta) = get_log_meta dev user e next at holds in
      let (user2, e2, bytes) = get_log_data dev user1 e next sized at holds in
      let e3 = next_ent dev user2 e next at holds in
      (
        user2,
        meta-step dev user user1 log_data e1
            ∙ ap (λ m. get_data os rounds dev user1 m log_data) meta
            ∙ data-step dev user1 user2 e.metadata log_data e2
            ∙ ap (λ b. next_entry os rounds dev user2 (log_data ++ (make e.metadata (some b) ∷ [])))
                bytes
            ∙ next-step dev (record dev { current_log_write = next }) user2
                (log_data ++ (read_as e ∷ [])) e3,
      )

  ioctl-end :
      (dev : HwmDevice) (user : Page)
      → dev.current_log_write ≡ none
      → disk_wrapper_ioctl os rounds dev hwm_get_log_meta user ≡ some (enodata, dev, user)
  unfolding disk_wrapper_ioctl
  ioctl-end dev user at = at-end dev user _ at

  -- The log is at its end.
  round-end :
      (dev : HwmDevice) (user : Page) (log_data : List DiskWrite)
      → dev.current_log_write ≡ none
      → one_round os rounds dev user log_data ≡ some (returned wrapper_success dev log_data)
  unfolding one_round answer
  round-end dev user log_data at = rw (ioctl-end dev user at) refl

  loop-more :
      (fuel : ℕ) (dev dev' : HwmDevice) (user user' : Page) (log_data log_data' : List DiskWrite)
      → one_round os rounds dev user log_data ≡ some (next_round dev' user' log_data')
      → log_loop os rounds (suc fuel) dev user log_data
        ≡ log_loop os rounds fuel dev' user' log_data'
  unfolding log_loop
  loop-more fuel dev dev' user user' log_data log_data' e = rw (e, log_loop) refl

  loop-end :
      (fuel : ℕ) (dev : HwmDevice) (user : Page) (log_data : List DiskWrite)
      → dev.current_log_write ≡ none
      → log_loop os rounds (suc fuel) dev user log_data ≡ some (wrapper_success, dev, log_data)
  unfolding log_loop
  loop-end fuel dev user log_data at = rw (round-end dev user log_data at, log_loop) refl

  -- The loop reads the entries from where the driver stands, and leaves it at the end.
  pub log_loop-reads :
      (fuel : ℕ) (dev : HwmDevice) (user : Page) (log_data : List DiskWrite) (es : List Entry)
      → length es < fuel
      → All IsSized es
      → Chain dev.heap dev.current_log_write es
      → log_loop os rounds fuel dev user log_data
        ≡ some
            (wrapper_success, record dev { current_log_write = none }, log_data ++ map read_as es)
  log_loop-reads zero dev user log_data es h sized c = absurd (omega arith)
  log_loop-reads (suc fuel) dev user log_data [] h sized end =
      loop-end fuel dev user log_data end
      ∙ ap (λ p. some (wrapper_success, record dev { current_log_write = p }, log_data)) end
      ∙ ap (λ l. some (wrapper_success, record dev { current_log_write = none }, l))
          (sym (append-nil log_data))
  log_loop-reads (suc fuel) dev user log_data (e ∷ es) h (one, sized) (next, at, holds, c) =
      let (user', round) = round-entry dev user log_data e next one at holds in
      let dev' = record dev { current_log_write = next } in
      loop-more fuel dev dev' user user' log_data (log_data ++ (read_as e ∷ [])) round
      ∙ log_loop-reads fuel dev' user' (log_data ++ (read_as e ∷ [])) es (omega arith) sized c
      ∙ ap (λ l. some (wrapper_success, record dev { current_log_write = none }, l))
          (append_assoc log_data (read_as e ∷ []) (map read_as es))
