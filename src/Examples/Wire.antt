-- ===== src/Examples/Wire.antt =====
-- Runs of pkg/rw and pkg/util.
use data_collection.Base.{
  ◌<◌, ◌≡◌, refl, some, List, [], ◌∷◌, ◌++◌, arith, length, take, ℤ, pos, negsuc, Bytes, codes, ok,
}
use data_collection.Rw.Endian.{be_bytes}
use data_collection.Rw.Frame.{read_bytes_alt}
use data_collection.Rw.Messages.{
  buffer, Json, write_uint32, fill_bytes, write_bytes, write_uint32_and_object,
}
use data_collection.Rw.RoundTrip.{sent, IsCut, read_bytes_alt-write_bytes}
use data_collection.Rw.Objects.{read_message, read_message-write_uint32_and_object}
use data_collection.Rw.Readers.{read_bytes_alt-IsCut}

abbrev ping : Bytes
ping = codes "ping"

-- JSON of a text that is its own encoding
abbrev text_json : Json Bytes
text_json = record { marshal = some; unmarshal = some }

read_bytes_alt-write_bytes_example :
    read_bytes_alt (sent (write_bytes buffer (some ping)) ++ 7 ∷ []) ≡ (ok (some ping), 7 ∷ [])
read_bytes_alt-write_bytes_example = read_bytes_alt-write_bytes (some ping) (7 ∷ []) (omega arith)

long : 6 < length (sent (write_bytes buffer (some ping)))
unfolding write_bytes fill_bytes write_uint32 be_bytes
long = omega arith

read_bytes_alt-IsCut_example :
    IsCut (read_bytes_alt (take 6 (sent (write_bytes buffer (some ping))))).0
read_bytes_alt-IsCut_example = read_bytes_alt-IsCut 6 (some ping) (omega arith) long

read_message-write_uint32_and_object_example :
    read_message text_json (sent (write_uint32_and_object buffer text_json 258 ping) ++ 7 ∷ [])
    ≡ (ok (258, ping), 7 ∷ [])
read_message-write_uint32_and_object_example =
    read_message-write_uint32_and_object text_json 258 ping ping (7 ∷ []) (omega arith) refl refl
      (omega arith)

abbrev times : List ℤ
times = pos 5 ∷ negsuc 2 ∷ pos 5 ∷ pos 1 ∷ []

abbrev old_hashes : List Bytes
old_hashes = codes "a" ∷ codes "b" ∷ []

abbrev new_hashes : List Bytes
new_hashes = codes "b" ∷ codes "c" ∷ []
