-- ===== src/Store.antt =====
-- internal/state/file_store.go and internal/state/db.go: the last coordinates of consensus, in
-- memory and in a file with a backup. A file is a list of bytes below 256. Metrics and log lines are
-- left out, and so are the syncs, which change no content.
pub mod Crash
use aequa_network.Base.{
  ℕ, zero, suc, ◌+◌, ◌*◌, ◌/◌, ◌%◌, Bool, not, List, [], ◌∷◌, ◌++◌, Option, none, some, ltb, ◌==◌,
  if◌then◌else◌, nat_eq, length, take, drop,
}

pub record LastState : Type 0 where
  pub height : ℕ
  pub round : ℕ

-- hash/crc32, which the code only calls.
pub record Checksum : Type 0 where
  pub crc32 : List ℕ → ℕ

-- `MemoryStore`: its fields `have` and `last` are one option.
abbrev pub save_memory : Option LastState → LastState → Option LastState
save_memory m s = some s

abbrev pub load_memory : Option LastState → Option LastState
load_memory m = m

abbrev pub magic : ℕ
magic = 1398031426

abbrev pub version : ℕ
version = 1

-- The big-endian bytes of an unsigned integer of `n` bytes, and the number that bytes stand for.
unfoldable pub put_uint : ℕ → ℕ → List ℕ
put_uint zero x = []
put_uint (suc n) x = put_uint n (x / 256) ++ x % 256 ∷ []

unfoldable pub get_uint : ℕ → List ℕ → ℕ
get_uint acc [] = acc
get_uint acc (b ∷ bs) = get_uint (acc * 256 + b) bs

pub payload_of : LastState → List ℕ
unfolding put_uint
payload_of s = put_uint 8 s.height ++ put_uint 8 s.round

pub data ReadError : Type 0 where
  missing short bad_magic bad_length crc_mismatch : ReadError

pub data Read : Type 0 where
  loaded : LastState → Read
  failed : ReadError → Read

-- The files `path`, `path.bak` and `path.tmp`.
pub record Directory : Type 0 where
  pub main : Option (List ℕ)
  pub bak : Option (List ℕ)
  pub tmp : Option (List ℕ)

-- `os.Rename(path, bak)`, if the main file is there.
keep_main : Directory → Option (List ℕ) → Directory
keep_main d none = d
keep_main d (some bytes) = record d { main = none; bak = some bytes }

unfoldable pub keep : Directory → Directory
unfolding keep_main
keep d = keep_main d d.main

-- `os.Rename(tmp, path)`.
unfoldable pub promote : Directory → Directory
promote d = record d { main = d.tmp; tmp = none }

module _ ⦃c : Checksum⦄ where
  unfoldable pub file_of : LastState → List ℕ
  unfolding put_uint payload_of
  file_of s =
      put_uint 4 magic
      ++ put_uint 2 version
      ++ put_uint 2 0
      ++ put_uint 4 16
      ++ put_uint 4 (c.crc32 (payload_of s))
      ++ payload_of s

  -- `writeFileAtomic` when no call fails.
  unfoldable pub write_file_atomic : Directory → LastState → Directory
  unfolding keep promote file_of
  write_file_atomic d s = promote (keep (record d { tmp = some (file_of s) }))

  decode : List ℕ → Read
  unfolding get_uint
  decode bytes =
      let payload = take 16 (drop 16 bytes) in
      if ltb (length bytes) 16
      then failed short
      else if not (get_uint 0 (take 4 bytes) == magic)
      then failed bad_magic
      else if not (get_uint 0 (take 4 (drop 8 bytes)) == 16)
      then failed bad_length
      else if ltb (length payload) 16
      then failed short
      else if not (c.crc32 payload == get_uint 0 (take 4 (drop 12 bytes)))
      then failed crc_mismatch
      else loaded
          (record { height = get_uint 0 (take 8 payload); round = get_uint 0 (drop 8 payload) })

  unfoldable pub read_file : Option (List ℕ) → Read
  unfolding decode
  read_file none = failed missing
  read_file (some bytes) = decode bytes

  load_backup : Read → Option LastState
  load_backup (loaded s) = some s
  load_backup (failed e) = none

  load_either : Read → Read → Option LastState
  unfolding load_backup
  load_either (loaded s) backup = some s
  load_either (failed e) backup = load_backup backup

  -- `LoadLastState`; `none` is `ErrNotFound`.
  unfoldable pub load : Directory → Option LastState
  unfolding load_either read_file
  load d = load_either (read_file d.main) (read_file d.bak)

  -- What a crash, or an error that ends `writeFileAtomic` early, can leave behind. The backup may
  -- fail without ending it.
  pub data Leaves (d : Directory) (s : LastState) : Directory → Type 0 where
    untouched : Leaves d s d
    writing : (n : ℕ) → Leaves d s (record d { tmp = some (take n (file_of s)) })
    kept : Leaves d s (keep (record d { tmp = some (file_of s) }))
    promoted : Leaves d s (write_file_atomic d s)
    promoted_without_backup : Leaves d s (promote (record d { tmp = some (file_of s) }))
