-- ===== src/Store/Crash.antt =====
-- What can be loaded after a save, complete or not.
use aequa_network.Base.{
  ℕ, zero, suc, ◌+◌, ◌*◌, ◌/◌, ◌%◌, ◌^◌, ◌<◌, ◌≡◌, refl, ◌∙◌, ap, ◌⊎◌, inl, inr, List, [], ◌∷◌,
  ◌++◌, Option, none, some, nat_eq, take, arith,
}
use aequa_network.Store.{
  LastState, Checksum, put_uint, get_uint, payload_of, loaded, Directory, keep, keep_main, promote,
  file_of, write_file_atomic, decode, read_file, load, load_either, load_backup, Leaves, untouched,
  writing, kept, promoted, promoted_without_backup,
}

-- The numbers that `n` bytes hold are those below this.
weight : ℕ → ℕ
weight zero = 1
weight (suc n) = 256 * weight n

get_uint-append :
    (acc b : ℕ) (bs : List ℕ) → get_uint acc (bs ++ b ∷ []) ≡ get_uint acc bs * 256 + b
unfolding get_uint
get_uint-append acc b [] = refl
get_uint-append acc b (x ∷ bs) = get_uint-append (acc * 256 + x) b bs

get_uint-put_uint : (n x : ℕ) → x < weight n → get_uint 0 (put_uint n x) ≡ x
unfolding get_uint put_uint weight
get_uint-put_uint zero x h = omega arith
get_uint-put_uint (suc n) x h = omega (
  arith,
  get_uint-append 0 (x % 256) (put_uint n (x / 256)),
  get_uint-put_uint n (x / 256) (omega arith),
)

uint64 : (x : ℕ) → x < 2 ^ 64 → get_uint 0 (put_uint 8 x) ≡ x
unfolding weight
uint64 x h = get_uint-put_uint 8 x h

uint32 : (x : ℕ) → x < 2 ^ 32 → get_uint 0 (put_uint 4 x) ≡ x
unfolding weight
uint32 x h = get_uint-put_uint 4 x h

module _ ⦃c : Checksum⦄ (crc_bound : (bytes : List ℕ) → c.crc32 bytes < 2 ^ 32) where
  -- A file that was written completely is read back, for coordinates that are uint64 and a checksum
  -- that is a uint32.
  pub read_file-file_of :
      (s : LastState)
      → s.height < 2 ^ 64
      → s.round < 2 ^ 64
      → read_file (some (file_of s)) ≡ loaded s
  unfolding read_file file_of put_uint payload_of decode get_uint
  read_file-file_of s h r = ground (
    arith,
    uint64 s.height h,
    uint64 s.round r,
    uint32 (c.crc32 (payload_of s)) (crc_bound (payload_of s)),
  )

  -- A load that does not fail finds what the main file holds.
  load_main : (d : Directory) (t : LastState) → read_file d.main ≡ loaded t → load d ≡ some t
  unfolding load load_either
  load_main d t h = rw (h, load_either) refl

  load_backup_only :
      (d : Directory) (t : LastState) → d.main ≡ none → read_file d.bak ≡ loaded t → load d ≡ some t
  unfolding load load_either load_backup read_file
  load_backup_only d t m h = ground arith

  -- The main file is moved, not copied.
  kept_main :
      (d : Directory) (t : LastState) (r : Option (List ℕ))
      → d.main ≡ r
      → read_file r ≡ loaded t
      → load (keep d) ≡ some t
  unfolding keep keep_main read_file
  kept_main d t none e h = absurd (ground arith)
  kept_main d t (some bytes) e h =
      rw (e, keep_main) (load_backup_only (record d { main = none; bak = some bytes }) t refl h)

  keep_main_tmp : (d : Directory) (r : Option (List ℕ)) → (keep_main d r).tmp ≡ d.tmp
  unfolding keep_main
  keep_main_tmp d none = refl
  keep_main_tmp d (some bytes) = refl

  promoted_file :
      (d : Directory) (s : LastState)
      → read_file d.tmp ≡ loaded s
      → load (promote (keep d)) ≡ some s
  unfolding promote keep
  promoted_file d s h = load_main (promote (keep d)) s (ap read_file (keep_main_tmp d d.main) ∙ h)

  -- While the main file is readable, a save that is cut off anywhere leaves a directory from which
  -- the old coordinates or the new ones are loaded, and a save that is not cut off the new ones, if
  -- the coordinates are uint64 and the checksum is a uint32.
  pub save_survives_crash :
      (d : Directory) (t s : LastState) {left : Directory}
      → s.height < 2 ^ 64
      → s.round < 2 ^ 64
      → read_file d.main ≡ loaded t
      → Leaves d s left
      → ((load left ≡ some t) ⊎ (load left ≡ some s)) × (load (write_file_atomic d s) ≡ some s)
  unfolding write_file_atomic promote
  save_survives_crash d t s {left} h r m l = (either left l, saved)
    where
      saved : load (write_file_atomic d s) ≡ some s
      saved = promoted_file (record d { tmp = some (file_of s) }) s (read_file-file_of s h r)

      either : (left : Directory) → Leaves d s left → (load left ≡ some t) ⊎ (load left ≡ some s)
      either left untouched = inl (load_main d t m)
      either left (writing n) = inl (load_main (record d { tmp = some (take n (file_of s)) }) t m)
      either left kept = inl (kept_main (record d { tmp = some (file_of s) }) t d.main refl m)
      either left promoted = inr saved
      either left promoted_without_backup = inr (load_main _ s (read_file-file_of s h r))
