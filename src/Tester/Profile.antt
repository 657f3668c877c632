-- ===== src/Tester/Profile.antt =====
-- code/harness/Tester.cpp: log_profile_save and log_profile_load. A file is the list of its bytes, or
-- `none` if it cannot be opened; of Tester's state they use `log_data`. A result `none` is an
-- assertion of disk_write::serialize or deserialize that fails.
use crashmonkey.Common.{
  ℕ, zero, suc, ◌≤◌, ◌<◌, ◌≡◌, refl, sym, ap, ◌∙◌, Option, none, some, List, [], ◌∷◌, ◌++◌, length,
  All, ◌>>=◌, arith,
}
use mathlib.Core.List.{append-nil}
use mathlib.Core.Option.{}
use crashmonkey.DiskWrite.{DiskWrite}
use crashmonkey.DiskWrite.Stream.{Bytes, serialize, deserialize}
use crashmonkey.DiskWrite.Stream.Size.{length-serialize}
use crashmonkey.DiskWrite.Stream.RoundTrip.{IsBuilt, deserialize-serialize}

pub data Code : Type 0 where
  success : Code
  log_clone_err : Code

-- Each request behind the one before.
unfoldable pub log_profile_save : List DiskWrite → Option Bytes
log_profile_save [] = some []
log_profile_save (w ∷ ws) = do rest ← log_profile_save ws; serialize w rest

-- The loop, with what `log_data` holds: it ends where `peek` finds the end of the file.
unfoldable pub load_loop : ℕ → List DiskWrite → Bytes → Option (List DiskWrite)
load_loop fuel log_data [] = some log_data
load_loop zero log_data (b ∷ bs) = none
load_loop (suc fuel) log_data (b ∷ bs) = do
  (w, rest) ← deserialize (b ∷ bs)
  load_loop fuel (log_data ++ (w ∷ [])) rest

-- Each round reads at least a byte.
unfoldable pub log_profile_load : List DiskWrite → Option Bytes → Option (Code × List DiskWrite)
log_profile_load log_data none = some (log_clone_err, log_data)
log_profile_load log_data (some file) = do
  log_data' ← load_loop (length file) log_data file
  some (success, log_data')

append_one {ℓ} :
    {A : Type ℓ} (xs : List A) (w : A) (ws : List A) → (xs ++ (w ∷ [])) ++ ws ≡ xs ++ (w ∷ ws)
append_one [] w ws = refl
append_one (x ∷ xs) w ws = ap (λ l. x ∷ l) (append_one xs w ws)

load_round :
    (fuel : ℕ) (log_data : List DiskWrite) (text rest : Bytes) (w : DiskWrite)
    → 0 < length text
    → deserialize text ≡ some (w, rest)
    → load_loop (suc fuel) log_data text ≡ load_loop fuel (log_data ++ (w ∷ [])) rest
unfolding load_loop
load_round fuel log_data [] rest w h e = elim h [ ]
load_round fuel log_data (b ∷ bs) rest w h e = rw (e) refl

load_end : (fuel : ℕ) (log_data : List DiskWrite) → load_loop fuel log_data [] ≡ some log_data
unfolding load_loop
load_end zero log_data = refl
load_end (suc fuel) log_data = refl

load_loop-save :
    (ws : List DiskWrite)
    → All IsBuilt ws
    → (text : Bytes) × (log_profile_save ws ≡ some text)
      × ((fuel : ℕ) (log_data : List DiskWrite)
          → length text ≤ fuel
          → load_loop fuel log_data text ≡ some (log_data ++ ws))
unfolding log_profile_save
load_loop-save [] built =
    ([], refl, λ fuel log_data h. load_end fuel log_data ∙ ap some (sym (append-nil log_data)))
load_loop-save (w ∷ ws) (one, built) =
    let (rest, saved, loads) = load_loop-save ws built in
    let (text, put, get) = deserialize-serialize w rest one in
    let longer = length-serialize w rest put in
    (text, rw (saved) put, go text rest loads get longer)
  where
    go :
        (text rest : Bytes)
        → ((fuel : ℕ) (log_data : List DiskWrite)
            → length rest ≤ fuel
            → load_loop fuel log_data rest ≡ some (log_data ++ ws))
        → deserialize text ≡ some (w, rest)
        → length rest < length text
        → (fuel : ℕ) (log_data : List DiskWrite) → length text ≤ fuel
        → load_loop fuel log_data text ≡ some (log_data ++ (w ∷ ws))
    go text rest loads get longer zero log_data h = absurd (omega arith)
    go text rest loads get longer (suc fuel) log_data h =
        load_round fuel log_data text rest w (omega arith) get
        ∙ loads fuel (log_data ++ (w ∷ [])) (omega arith)
        ∙ ap some (append_one log_data w ws)

-- A log of requests that the constructor of disk_write built is saved by log_profile_save without
-- a failing assertion, and log_profile_load of that file ends with SUCCESS and puts the same
-- requests, in order, behind those that log_data holds.
pub log_profile_load-save :
    (log_data ws : List DiskWrite)
    → All IsBuilt ws
    → (file : Bytes) × (log_profile_save ws ≡ some file)
      × (log_profile_load log_data (some file) ≡ some (success, log_data ++ ws))
unfolding log_profile_load
log_profile_load-save log_data ws built =
    let (file, saved, loads) = load_loop-save ws built in
    (file, saved, rw (loads (length file) log_data (omega arith)) refl)
