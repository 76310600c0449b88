-- ===== src/Rw/Frame.antt =====
-- pkg/rw/integer.go, bytes.go, string.go and error.go: readers and writers of one value.
-- A reader is an action on the bytes still to come, io.ReadFull as the standard library has it.
-- A writer is any type with a Write call; a bytes.Buffer is the one that only appends.
use data_collection.Base.{
  ℕ, Bytes, [], ◌∷◌, Option, none, some, length, take, drop, if◌then◌else◌, ltb, ◌==◌, ok, err,
  Exec, pure, fail, ◌>>=◌,
}
use data_collection.Rw.Endian.{RwError, eof, unexpected_eof, remote, be_value}

abbrev pub Reader : Type 0 → Type 0
Reader A = Exec Bytes RwError A

-- io.ReadFull into a buffer of `n` bytes
unfoldable pub read_full : ℕ → Reader Bytes
read_full n [] = if n == 0 then (ok [], []) else (err eof, [])
read_full n (b ∷ r) =
    if ltb (length (b ∷ r)) n
    then (err unexpected_eof, [])
    else (ok (take n (b ∷ r)), drop n (b ∷ r))

unfoldable pub read_uint64 : Reader ℕ
read_uint64 = do b ← read_full 8; pure (be_value b)

unfoldable pub read_uint32 : Reader ℕ
read_uint32 = do b ← read_full 4; pure (be_value b)

unfoldable pub read_uint16 : Reader ℕ
read_uint16 = do b ← read_full 2; pure (be_value b)

abbrev pub nil_mark : ℕ
nil_mark = 0xFFFFFFFF

-- the part of ReadBytes and ReadBytesAlt behind the length
unfoldable pub read_body : ℕ → Reader (Option Bytes)
read_body n =
    if n == nil_mark
    then pure none
    else if n == 0
    then pure (some [])
    else (do b ← read_full n; pure (some b))

-- `none` is the nil slice
unfoldable pub read_bytes_alt : Reader (Option Bytes)
unfolding read_body
read_bytes_alt = do n ← read_uint32; read_body n

-- string(b): the string of a nil slice is empty
unfoldable pub to_string : Option Bytes → Bytes
to_string none = []
to_string (some b) = b

unfoldable pub read_string_alt : Reader Bytes
unfolding to_string
read_string_alt = do b ← read_bytes_alt; pure (to_string b)

unfoldable pub read_error_alt : Reader RwError
read_error_alt = do s ← read_string_alt; pure (remote s)

-- Functions with an out parameter keep its target beside the input.
abbrev pub Into : Type 0 → Type 0
Into T = Exec (T × Bytes) RwError Unit

abbrev pub reading : {A T : Type 0} → Reader A → Exec (T × Bytes) RwError A
reading m (t, s) = let (r, s') = m s in (r, (t, s'))

abbrev pub store : {T : Type 0} → T → Into T
store v (t, s) = (ok tt, (v, s))

-- the part of ReadBytes behind the length
unfoldable pub store_body : ℕ → Into (Option Bytes)
store_body n =
    if n == nil_mark
    then store none
    else if n == 0
    then store (some [])
    else (do b ← reading (read_full n); store (some b))

unfoldable pub read_bytes : Into (Option Bytes)
unfolding store_body
read_bytes = do n ← reading read_uint32; store_body n

unfoldable pub read_string : Into Bytes
read_string = do b ← reading read_bytes_alt; store (to_string b)

-- ReadError reads into a local string, and returns the error that it read as its own.
unfoldable pub read_error : Into (Option RwError)
read_error = do s ← reading read_string_alt; fail (remote s)
