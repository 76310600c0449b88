-- ===== src/Rw.antt =====
-- pkg/rw: the wire format. Integers are big-endian, a byte slice follows its length, and the length
-- 0xFFFFFFFF stands for nil. A reader is the bytes that are still to come before the end of file.
pub mod Endian
pub mod Frame
pub mod Messages
pub mod RoundTrip
pub mod Objects
pub mod Readers
