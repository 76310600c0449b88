-- ===== src/Storage/Messenger/Window.antt =====
-- The first loop of SearchData over the keys that AddData writes.
use data_collection.Base.{◌≡◌, refl, arith, ◌&&◌, List, [], ◌∷◌, map, keep, All, ℤ, ltb_ℤ}
use data_collection.Storage.Keys.{format_int}
use data_collection.Storage.Keys.Decimal.{IsInt64, parse_int-format_int}
use data_collection.Storage.Messenger.{times_between}

-- Of the keys that AddData writes for int64 times, SearchData selects those whose time lies strictly
-- between `start` and `end`, in the order of the keys: no key fails to be read back.
pub times_between-format_int :
    (start end : ℤ) (times : List ℤ)
    → All IsInt64 times
    → times_between start end (map format_int times)
      ≡ keep (λ tm. ltb_ℤ start tm && ltb_ℤ tm end) times
unfolding times_between keep
times_between-format_int start end [] h = refl
times_between-format_int start end (tm ∷ times) h =
    ground (arith, parse_int-format_int tm h.0, times_between-format_int start end times h.1)
