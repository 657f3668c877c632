-- ===== src/Tests.antt =====
-- Concrete inputs: the positions of the request flags of Linux 3.13 (include/linux/blk_types.h, in
-- the order that `flag_names` of code/disk_wrapper.c gives), some requests, and a generator.
mod DiskWriteTests
mod PermuterTests
mod Slots
mod CowBrdTests
mod ResultsTests
mod CheckTests
mod DevicesTests
mod ImageTests
mod SocketTests
mod WriteDataTests
mod WrapperTests
use crashmonkey.Common.{
  ℕ, zero, suc, ◌+◌, ◌-◌, ◌^◌, ◌≡◌, ◌≤◌, refl, Option, none, some, List, [], ◌∷◌, ltb,
  if◌then◌else◌, arith,
}
use crashmonkey.DiskWrite.Meta.{OpMeta, ReqBits, IsEnum}
use crashmonkey.DiskWrite.{DiskWrite}
use crashmonkey.Permuter.Init.{Garbage}
use crashmonkey.Permuter.Random.{Draw}
use crashmonkey.Permuter.Random.Pick.{InRange}

abbrev pub bits : ReqBits
bits = record {
  write = 0;
  sync = 4;
  meta = 5;
  discard = 7;
  fua = 11;
  flush = 12;
  soft_barrier = 16;
  flush_seq = 17;
}

pub bits-IsEnum : IsEnum bits
bits-IsEnum = omega arith

abbrev pub request : ℕ → ℕ → ℕ → DiskWrite
request rw sector size = record {
  metadata = record { bi_flags = 0; bi_rw = rw; write_sector = sector; size = size };
  data_ptr = some (7 ∷ 8 ∷ []);
}

-- A plain write, a write with FUA and a flush with data.
abbrev pub plain : DiskWrite
plain = request 1 8 2

abbrev pub durable : DiskWrite
durable = request (2 ^ 11 + 1) 16 2

abbrev pub flush_write : DiskWrite
flush_write = request (2 ^ 12 + 1) 24 2

abbrev pub junk : Garbage
junk = record {
  num_meta = λ i. 77;
  data_half = plain.metadata;
  flag_half = λ i. record { bi_flags = 0; bi_rw = 5; write_sector = 9; size = 9 };
}

-- A generator that always draws the lower bound, and counts its draws.
abbrev pub lowest : Draw ℕ
lowest a b g = (a, suc g)

pub lowest-InRange : InRange lowest
lowest-InRange a b g h = omega arith
