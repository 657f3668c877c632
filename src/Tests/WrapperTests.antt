-- ===== src/Tests/WrapperTests.antt =====
-- code/disk_wrapper.c and the reader of its log at concrete requests.
use crashmonkey.Common.{
  ℕ, zero, suc, ◌≡◌, refl, Bool, true, false, inl, inr, none, some, [], ◌∷◌, ◌++◌, arith,
}
use crashmonkey.DiskWrite.Meta.{OpMeta, has_flag}
use crashmonkey.DiskWrite.{}
use crashmonkey.CowBrd.{Page}
use crashmonkey.DiskWrapper.{
  Node, put, HwmDevice, Bio, Memory, is_logged, link, fill, log_bio, copy_segments,
  disk_wrapper_bio, free_loop, free_logs,
}
use crashmonkey.DiskWrapper.Ioctl.{Platform, IsPlatform, disk_wrapper_ioctl}
use crashmonkey.DiskWrapper.Chain.{Entry, node_of}
use crashmonkey.DiskWrapper.Log.{IsLog, IsWhole, joined}
use crashmonkey.DiskWrapper.Clear.{IsFreed, free_logs-IsFreed}
use crashmonkey.DiskWrapper.Dangling.{no_buffer-faults}
use crashmonkey.Tester.WrapperLog.{
  wrapper_success, get_wrapper_log, send, begin_wrapper_logging, end_wrapper_logging,
  clear_wrapper_log,
}
use crashmonkey.Tester.WrapperLog.Reads.{CanCopy}
use crashmonkey.Tester.WrapperLog.Session.{
  HasRoom, Workload, quiet, serves, logged_of, session-logged_of,
}
use crashmonkey.Tests.{bits, plain}

-- A struct of four bytes, the fields one after the other.
abbrev fields : OpMeta → Page
fields m zero = m.bi_flags
fields m (suc zero) = m.bi_rw
fields m (suc (suc zero)) = m.write_sector
fields m (suc (suc (suc k))) = m.size

abbrev small : Platform
small = record {
  sizeof_meta = 4;
  memory_of = λ n. fields n.metadata;
  meta_of =
      λ user. record { bi_flags = user 0; bi_rw = user 1; write_sector = user 2; size = user 3 };
  access_ok = λ n. true;
  not_copied = λ n. 0;
}

small-IsPlatform : IsPlatform small
small-IsPlatform = record {
  meta_back = λ n user same.
      rw (same 0 (omega arith), same 1 (omega arith), same 2 (omega arith), same 3 (omega arith))
        refl;
}

small-CanCopy : CanCopy small
small-CanCopy = record { accessible = λ n. refl; meta_at_once = refl; progress = λ n h. h }

abbrev idle : HwmDevice
idle = record {
  log_on = false;
  writes = none;
  current_write = none;
  current_log_write = none;
  heap = λ a. none;
}

abbrev bio : ℕ → Bio
bio rw = record {
  metadata = record { bi_flags = 0; bi_rw = rw; write_sector = 8; size = 3 };
  segments = (1 ∷ 2 ∷ []) ∷ (3 ∷ []) ∷ [];
}

abbrev at : ℕ → Bool → Memory
at q b = record { node = some q; buffer = b; stale = λ k. 0 }

idle-IsLog : IsLog idle []
idle-IsLog = record { chain = refl; separate = tt; ends = inl (refl, refl) }

abbrev recording : HwmDevice
recording = record idle { log_on = true }

recording-IsLog : IsLog recording []
recording-IsLog = record { chain = refl; separate = tt; ends = inl (refl, refl) }

abbrev blank : Node
blank = record { metadata = (bio 1).metadata; bytes = none; next = none }

-- The driver with the first of two requests in its log.
abbrev recorded : HwmDevice
recorded = record {
  log_on = true;
  writes = some 4;
  current_write = some 4;
  current_log_write = some 4;
  heap =
      put (put (λ a. none) 4 (some blank)) 4
        (some (record blank { bytes = some (1 ∷ 2 ∷ 3 ∷ []) }));
}

two_bios-Workload : Workload bits recording (bio 1 ∷ bio 0 ∷ []) recorded
unfolding disk_wrapper_bio is_logged has_flag log_bio link fill copy_segments IsWhole joined HasRoom
two_bios-Workload =
    serves {dev1 = recorded} {bio = bio 1} (at 4 true) refl (4, refl, refl, refl) refl
      (serves {dev1 = recorded} {bio = bio 0} (at 9 true) refl (9, refl, refl, refl) refl quiet)

abbrev held : Entry
held = record { addr = 4; metadata = plain.metadata; bytes = 7 ∷ 8 ∷ [] }

abbrev one_held : HwmDevice
one_held = record {
  log_on = true;
  writes = some 4;
  current_write = some 4;
  current_log_write = some 4;
  heap = put (λ a. none) 4 (some (node_of held none));
}

one_held-IsLog : IsLog one_held (held ∷ [])
one_held-IsLog = record {
  chain = (none, refl, refl, refl);
  separate = (tt, tt);
  ends = inr ([], held, refl, refl);
}

free_logs-IsFreed_example :
    (dev' : HwmDevice) × (free_logs 5 one_held ≡ some dev')
    × IsFreed one_held.heap dev'.heap (held ∷ [])
    × IsLog dev' []
    × (dev'.current_log_write ≡ dev'.writes)
    × (dev'.log_on ≡ true)
free_logs-IsFreed_example = free_logs-IsFreed 5 one_held (held ∷ []) (omega arith) one_held-IsLog

no_buffer-faults_example :
    (dev' : HwmDevice) × (disk_wrapper_bio bits (at 6 false) one_held (bio 1) ≡ some dev')
    × (disk_wrapper_bio bits (at 7 true) dev' (bio 1) ≡ none)
unfolding is_logged has_flag
no_buffer-faults_example =
    no_buffer-faults bits (at 6 false) (at 7 true) one_held (bio 1) (bio 1) 6 7 (held ∷ [])
      one_held-IsLog refl refl refl refl refl refl refl (omega arith)

session-logged_of_example :
    (dev5 : HwmDevice) × (get_wrapper_log small 5 true
        (record recorded { log_on = false })
        (λ k. 0)
        (plain ∷ [])
      ≡ some (wrapper_success, dev5, (plain ∷ []) ++ logged_of bits (bio 1 ∷ bio 0 ∷ [])))
unfolding clear_wrapper_log begin_wrapper_logging end_wrapper_logging send disk_wrapper_ioctl
    free_logs free_loop
session-logged_of_example =
    session-logged_of bits small small-IsPlatform small-CanCopy 5 (λ k. 0) (plain ∷ []) idle idle
      recording recorded (record recorded { log_on = false }) [] (bio 1 ∷ bio 0 ∷ []) idle-IsLog
      (omega arith) (omega arith) refl refl two_bios-Workload refl
