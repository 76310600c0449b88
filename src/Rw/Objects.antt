-- ===== src/Rw/Objects.antt =====
-- pkg/rw/object.go and message.go: a numbered JSON message goes out in one write, and comes back.
use data_collection.Base.{
  ℕ, ◌^◌, ◌<◌, ◌≡◌, refl, Option, none, some, ◌++◌, append_assoc, length, Bytes, ok, Exec, pure,
  fail, ◌>>=◌, ◌>>◌,
}
use data_collection.Rw.Endian.{RwError, not_json, be_bytes}
use data_collection.Rw.Frame.{Reader, read_uint32, nil_mark}
use data_collection.Rw.Messages.{
  Writer, buffer, Json, write_uint32, flush, write_marshalled, write_uint32_and_object,
  read_json_object, decode,
}
use data_collection.Rw.RoundTrip.{
  sent, frame, write_bytes-eq-write, read_bytes_alt-frame, read_uint32-be_bytes,
}

-- One write of the number and the framed object, or none at all if the object has no JSON.
abbrev pub message : (w : Writer) → ℕ → Option Bytes → Exec w.State RwError Unit
message w v none = fail not_json
message w v (some j) = w.write (be_bytes 4 v ++ frame (some j))

write_marshalled-frame :
    (j : Bytes) → write_marshalled buffer (some j) ≡ buffer.write (frame (some j))
unfolding write_marshalled
write_marshalled-frame j = write_bytes-eq-write buffer (some j)

fill_message :
    (w : Writer) (v : ℕ) (j : Option Bytes)
    → flush w (do write_uint32 buffer v; write_marshalled buffer j) ≡ message w v j
unfolding flush write_uint32
fill_message w v none = unfold write_marshalled in refl
fill_message w v (some j) = rw write_marshalled-frame refl

module _ {O : Type 0} (json : Json O) where
  -- Whatever the writer, a numbered message is exactly one Write of the number and the framed JSON,
  -- and nothing is written when the object cannot be marshalled.
  pub write_uint32_and_object-eq-message :
      (w : Writer) (v : ℕ) (o : O)
      → write_uint32_and_object w json v o ≡ message w v (json.marshal o)
  unfolding write_uint32_and_object
  write_uint32_and_object-eq-message w v o = fill_message w v (json.marshal o)

  -- the receiving side: the number, then the object
  abbrev pub read_message : Reader (ℕ × O)
  read_message = do v ← read_uint32; o ← read_json_object json; pure (v, o)

  pub read_json_object-frame :
      (o : O) (j rest : Bytes)
      → json.unmarshal j ≡ some o
      → length j < nil_mark
      → read_json_object json (frame (some j) ++ rest) ≡ (ok o, rest)
  unfolding read_json_object decode
  read_json_object-frame o j rest e h = rw (read_bytes_alt-frame (some j) rest h, e)

  -- For a number below 2 ^ 32 and an object whose JSON text is shorter than 2 ^ 32 - 1 bytes and is decoded
  -- to the object again, a reader gets the number and the object that were written, and stands where the
  -- message ends.
  pub read_message-write_uint32_and_object :
      (v : ℕ) (o : O) (j rest : Bytes)
      → v < 2 ^ 32
      → json.marshal o ≡ some j
      → json.unmarshal j ≡ some o
      → length j < nil_mark
      → read_message (sent (write_uint32_and_object buffer json v o) ++ rest) ≡ (ok (v, o), rest)
  read_message-write_uint32_and_object v o j rest hv m u h =
      rw (write_uint32_and_object-eq-message buffer v o, m)
        (rw (append_assoc (be_bytes 4 v) (frame (some j)) rest) (
          rw (read_uint32-be_bytes v (frame (some j) ++ rest) hv)
            (rw (read_json_object-frame o j rest u h))))
