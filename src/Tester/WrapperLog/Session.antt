-- ===== src/Tester/WrapperLog/Session.antt =====
-- code/harness/c_harness.cpp records a workload so: clear the driver's log, turn logging on, let the
-- workload run, turn logging off, and read the log (get_wrapper_log).
use mathlib.Core.Path.{subst}
use mathlib.Core.Option.{some-injective}
use mathlib.Core.List.{append_assoc, append-nil, map-append}
use crashmonkey.Common.{
  ℕ, suc, ◌≤◌, ◌≡◌, refl, sym, ap, ◌∙◌, inl, inr, true, false, ◌&&◌, Bool-cases, if◌then◌else◌,
  none, some, List, [], ◌∷◌, ◌++◌, map, length, length-map, All, arith,
}
use crashmonkey.DiskWrite.Meta.{ReqBits}
use crashmonkey.DiskWrite.{DiskWrite, make}
use crashmonkey.CowBrd.{Page}
use crashmonkey.DiskWrapper.{HwmDevice, Bio, Memory, is_logged, disk_wrapper_bio, free_logs}
use crashmonkey.DiskWrapper.Ioctl.{Platform, IsPlatform, disk_wrapper_ioctl}
use crashmonkey.DiskWrapper.Chain.{Entry, Chain}
use crashmonkey.DiskWrapper.Log.{joined, IsWhole, entry_of, IsLog, bio-IsLog}
use crashmonkey.DiskWrapper.Clear.{free_logs-IsFreed}
use crashmonkey.Tester.WrapperLog.{
  wrapper_success, get_wrapper_log, send, begin_wrapper_logging, end_wrapper_logging,
  clear_wrapper_log,
}
use crashmonkey.Tester.WrapperLog.Reads.{CanCopy, read_as, IsSized, log_loop-reads}

module _ (r : ReqBits) where
  -- Memory for one request: a node at an address that holds nothing, and a buffer.
  unfoldable pub HasRoom : Memory → HwmDevice → Type 0
  HasRoom memory dev =
      (q : ℕ) × (memory.node ≡ some q) × (memory.buffer ≡ true) × (dev.heap q ≡ none)

  -- The requests that reach the driver, one after the other, each with memory for it.
  pub data Workload : HwmDevice → List Bio → HwmDevice → Type 0 where
    quiet : {dev : HwmDevice} → Workload dev [] dev
    serves :
        {dev dev1 dev' : HwmDevice} {bio : Bio} {bios : List Bio} (memory : Memory)
        → IsWhole bio
        → HasRoom memory dev
        → disk_wrapper_bio r memory dev bio ≡ some dev1
        → Workload dev1 bios dev'
        → Workload dev (bio ∷ bios) dev'

  -- The requests that have a flag that is logged, with their data.
  unfoldable pub logged_of : List Bio → List DiskWrite
  logged_of [] = []
  logged_of (bio ∷ bios) =
      if is_logged r bio
      then make bio.metadata (some (joined bio.segments)) ∷ logged_of bios
      else logged_of bios

  length-logged_of : (bios : List Bio) → length (logged_of bios) ≤ length bios
  unfolding logged_of
  length-logged_of [] = omega arith
  length-logged_of (bio ∷ bios) = let rest = length-logged_of bios in ground (arith, rest)

  -- Where logging stands, with nothing read yet.
  record Recording (dev : HwmDevice) (es : List Entry) : Type 0 where
    on : dev.log_on ≡ true
    log : IsLog dev es
    rewound : dev.current_log_write ≡ dev.writes
    sized : All IsSized es

  not_logged :
      (memory : Memory) (dev dev' : HwmDevice) (bio : Bio)
      → is_logged r bio ≡ false
      → disk_wrapper_bio r memory dev bio ≡ some dev'
      → dev ≡ dev'
  unfolding disk_wrapper_bio
  not_logged memory dev dev' bio quiet_bio e =
      let off : (dev.log_on && is_logged r bio) ≡ false = ground (arith, quiet_bio) in
      let same : disk_wrapper_bio r memory dev bio ≡ some dev = rw (off, disk_wrapper_bio) refl in
      some-injective _ _ (sym same ∙ e)

  IsSized-append :
      (es : List Entry) (e : Entry) → All IsSized es → IsSized e → All IsSized (es ++ (e ∷ []))
  IsSized-append [] e all one = (one, tt)
  IsSized-append (x ∷ xs) e (first, all) one = (first, IsSized-append xs e all one)

  Workload-Recording :
      {dev dev' : HwmDevice} {bios : List Bio}
      → Workload dev bios dev'
      → (es : List Entry) → Recording dev es
      → (es' : List Entry) × Recording dev' es'
        × (map read_as es' ≡ map read_as es ++ logged_of bios)
  unfolding logged_of HasRoom IsWhole
  Workload-Recording quiet es rec = (es, rec, sym (append-nil (map read_as es)))
  Workload-Recording {dev = dev}
        (serves {dev1 = dev1} {bio = bio} {bios = bios} memory whole
          (q, node, buffer, fresh)
          e
          rest)
        es rec =
      elim (Bool-cases (is_logged r bio)) [
        | inr quiet_bio ↦
            let (es', rec', maps) =
              Workload-Recording rest es
                (subst (λ d. Recording d es) (not_logged memory dev dev1 bio quiet_bio e) rec) in
            (
              es',
              rec',
              maps
                  ∙ ap
                      (λ b.
                        map read_as es
                        ++ (if b
                            then make bio.metadata (some (joined bio.segments)) ∷ logged_of bios
                            else logged_of bios))
                      (sym quiet_bio),
            )
        | inl logged ↦
            let both : (dev.log_on && is_logged r bio) ≡ true =
              ap (λ b. b && is_logged r bio) rec.on ∙ logged in
            let (dev2, e2, log, on, rewound) =
              bio-IsLog r memory dev bio q es
                (record {
                  logged = both;
                  whole = whole;
                  node = node;
                  buffer = buffer;
                  fresh = fresh;
                })
                rec.log in
            let same : dev2 ≡ dev1 = some-injective _ _ (sym e2 ∙ e) in
            let rec2 : Recording dev2 (es ++ (entry_of q bio ∷ [])) = record {
              on = on ∙ rec.on;
              log = log;
              rewound = rewound rec.rewound;
              sized = IsSized-append es (entry_of q bio) rec.sized whole;
            } in
            let (es', rec', maps) =
              Workload-Recording rest (es ++ (entry_of q bio ∷ []))
                (subst (λ d. Recording d (es ++ (entry_of q bio ∷ []))) same rec2) in
            (
              es',
              rec',
              maps
                  ∙ ap (λ l. l ++ logged_of bios) (map-append _ es (entry_of q bio ∷ []))
                  ∙ append_assoc (map read_as es) (read_as (entry_of q bio) ∷ []) (logged_of bios)
                  ∙ ap
                      (λ b.
                        map read_as es
                        ++ (if b
                            then make bio.metadata (some (joined bio.segments)) ∷ logged_of bios
                            else logged_of bios))
                      (sym logged),
            )
      ]

  module _ (os : Platform) (rounds : ℕ) (user : Page) where
    clear_lem :
        (dev dev' : HwmDevice)
        → free_logs rounds dev ≡ some dev'
        → clear_wrapper_log os rounds true dev user ≡ some dev'
    unfolding clear_wrapper_log send disk_wrapper_ioctl
    clear_lem dev dev' e = rw (e) refl

    begin_lem :
        (dev : HwmDevice)
        → begin_wrapper_logging os rounds true dev user ≡ some (record dev { log_on = true })
    unfolding begin_wrapper_logging send disk_wrapper_ioctl
    begin_lem dev = refl

    end_lem :
        (dev : HwmDevice)
        → end_wrapper_logging os rounds true dev user ≡ some (record dev { log_on = false })
    unfolding end_wrapper_logging send disk_wrapper_ioctl
    end_lem dev = refl

  get_lem :
      (os : Platform)
      → IsPlatform os
      → CanCopy os
      → (rounds : ℕ) (user : Page) (log_data : List DiskWrite) (dev : HwmDevice) (es : List Entry)
      → length es ≤ rounds
      → All IsSized es
      → Chain dev.heap dev.current_log_write es
      → get_wrapper_log os rounds true dev user log_data
        ≡ some
            (wrapper_success, record dev { current_log_write = none }, log_data ++ map read_as es)
  unfolding get_wrapper_log
  get_lem os law can rounds user log_data dev es room sized c =
      log_loop-reads os law can rounds (suc rounds) dev user log_data es (omega arith) sized c

  -- From any log, clear_wrapper_log, begin_wrapper_logging, requests that reach the driver,
  -- end_wrapper_logging and get_wrapper_log end with SUCCESS and leave in log_data, behind what it
  -- held, exactly the requests that have a flag that is logged, in order and with their data. The
  -- conditions: ioctl_fd is open; the kernel has memory for each request; a request's segments
  -- have BI_SIZE bytes together; copy_to_user copies all; `rounds` is at least the length of both
  -- logs.
  pub session-logged_of :
      (os : Platform)
      → IsPlatform os
      → CanCopy os
      → (rounds : ℕ) (user : Page) (log_data : List DiskWrite) (dev dev1 dev2 dev3 dev4 : HwmDevice)
        (es : List Entry) (bios : List Bio)
      → IsLog dev es
      → length es ≤ rounds
      → length bios ≤ rounds
      → clear_wrapper_log os rounds true dev user ≡ some dev1
      → begin_wrapper_logging os rounds true dev1 user ≡ some dev2
      → Workload dev2 bios dev3
      → end_wrapper_logging os rounds true dev3 user ≡ some dev4
      → (dev5 : HwmDevice) × (get_wrapper_log os rounds true dev4 user log_data
          ≡ some (wrapper_success, dev5, log_data ++ logged_of bios))
  session-logged_of os law can rounds user log_data dev dev1 dev2 dev3 dev4 es bios log room room'
        cleared begun work ended =
      let (devc, e, freed, empty, rewound, on) = free_logs-IsFreed rounds dev es room log in
      let first : devc ≡ dev1 =
        some-injective _ _ (sym (clear_lem os rounds user dev devc e) ∙ cleared) in
      let second : record devc { log_on = true } ≡ dev2 = some-injective _ _ (
        sym (begin_lem os rounds user devc)
        ∙ ap (λ d. begin_wrapper_logging os rounds true d user) first
        ∙ begun) in
      let start : Recording (record devc { log_on = true }) [] = record {
        on = refl;
        log = record { chain = empty.chain; separate = tt; ends = empty.ends };
        rewound = rewound;
        sized = tt;
      } in
      let (es', rec, maps) =
        Workload-Recording work [] (subst (λ d. Recording d []) second start) in
      let last : record dev3 { log_on = false } ≡ dev4 =
        some-injective _ _ (sym (end_lem os rounds user dev3) ∙ ended) in
      (
        record dev3 { log_on = false; current_log_write = none },
        ap (λ d. get_wrapper_log os rounds true d user log_data) (sym last)
            ∙ get_lem os law can rounds user log_data (record dev3 { log_on = false }) es'
                (omega
                  (arith, sym (length-map es' read_as) ∙ ap length maps, length-logged_of bios))
                rec.sized (subst (λ p. Chain dev3.heap p es') (sym rec.rewound) rec.log.chain)
            ∙ ap
                (λ l. some (
                  wrapper_success,
                  record dev3 { log_on = false; current_log_write = none },
                  log_data ++ l,
                ))
                maps,
      )
