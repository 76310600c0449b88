-- ===== src/Rw/Messages.antt =====
-- pkg/rw/integer.go, bytes.go, string.go, error.go, object.go and message.go: the writers. Whatever
-- a function writes goes out in one Write call, so a failing writer sends the whole or nothing.
use data_collection.Base.{
  ℕ, ◌%◌, ◌^◌, Option, none, some, [], ◌++◌, ltb, if◌then◌else◌, length, Bytes, ok, err, panic,
  Exec, pure, fail, crash, ◌>>=◌, ◌>>◌,
}
use data_collection.Rw.Endian.{RwError, not_json, bad_json, be_bytes}
use data_collection.Rw.Frame.{Reader, read_bytes_alt, nil_mark}

-- io.Writer
pub record Writer : Type 1 where
  pub State : Type 0
  pub write : Bytes → Exec State RwError Unit

-- bytes.Buffer
abbrev pub buffer : Writer
buffer = record { State = Bytes; write = λ b s. (ok tt, s ++ b) }

module _ (w : Writer) where
  abbrev pub Writes : Type 0
  Writes = Exec w.State RwError Unit

  unfoldable pub write_uint64 : ℕ → Writes
  write_uint64 v = w.write (be_bytes 8 v)

  unfoldable pub write_uint32 : ℕ → Writes
  write_uint32 v = w.write (be_bytes 4 v)

  unfoldable pub write_uint16 : ℕ → Writes
  write_uint16 v = w.write (be_bytes 2 v)

  -- fill a local buffer, then `w.Write(buffer.Bytes())` unless filling it failed
  unfoldable pub flush : Exec Bytes RwError Unit → Writes
  flush fill = let (r, b) = fill [] in elim r [ ok _ ↦ w.write b | err e ↦ fail e | panic ↦ crash ]

-- what WriteBytes puts into its buffer; uint32(len(b)) wraps
unfoldable pub fill_bytes : Option Bytes → Exec Bytes RwError Unit
fill_bytes none = buffer.write (be_bytes 4 nil_mark)
fill_bytes (some b) = do
  buffer.write (be_bytes 4 (length b % 2 ^ 32))
  if ltb 0 (length b) then buffer.write b else pure tt

module _ (w : Writer) where
  unfoldable pub write_bytes : Option Bytes → Writes w
  unfolding fill_bytes flush
  write_bytes b = flush w (fill_bytes b)

  unfoldable pub write_string : Bytes → Writes w
  unfolding write_bytes
  write_string s = write_bytes (some s)

  -- `text` is the Error method of the error
  unfoldable pub write_error : {E : Type 0} → (E → Bytes) → E → Writes w
  unfolding write_string
  write_error text e = write_string (text e)

  unfoldable pub write_uint32_and_uint32 : ℕ → ℕ → Writes w
  unfolding flush write_uint32
  write_uint32_and_uint32 v v2 = flush w (do write_uint32 buffer v; write_uint32 buffer v2)

-- json.Marshal and json.Unmarshal at the type of a message.
pub record Json (O : Type 0) : Type 0 where
  pub marshal : O → Option Bytes
  pub unmarshal : Bytes → Option O

abbrev pub or_fail : {S A : Type 0} → RwError → Option A → Exec S RwError A
or_fail e none = fail e
or_fail e (some a) = pure a

-- json.Unmarshal of a nil slice is an error, as of an empty one
unfoldable pub decode : {O : Type 0} → Json O → Option Bytes → Option O
decode json none = none
decode json (some b) = json.unmarshal b

module _ {O : Type 0} (json : Json O) where
  unfoldable pub read_json_object : Reader O
  unfolding decode
  read_json_object = do b ← read_bytes_alt; or_fail bad_json (decode json b)

module _ (w : Writer) where
  unfoldable pub write_uint32_and_string : ℕ → Bytes → Writes w
  unfolding flush write_uint32 write_string
  write_uint32_and_string v s = flush w (do write_uint32 buffer v; write_string buffer s)

  unfoldable pub write_uint32_and_bytes : ℕ → Option Bytes → Writes w
  unfolding flush write_uint32 write_bytes
  write_uint32_and_bytes v b = flush w (do write_uint32 buffer v; write_bytes buffer b)

  -- WriteJsonObject behind json.Marshal
  unfoldable pub write_marshalled : Option Bytes → Writes w
  unfolding write_bytes
  write_marshalled j = do b ← or_fail not_json j; write_bytes w (some b)

  unfoldable pub write_json_object : {O : Type 0} → Json O → O → Writes w
  unfolding write_marshalled
  write_json_object json o = write_marshalled (json.marshal o)

module _ (w : Writer) where
  unfoldable pub write_uint32_and_object : {O : Type 0} → Json O → ℕ → O → Writes w
  unfolding flush write_uint32 write_json_object
  write_uint32_and_object json v o =
      flush w (do write_uint32 buffer v; write_json_object buffer json o)
