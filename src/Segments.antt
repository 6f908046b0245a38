-- ===== src/Segments.antt =====
-- mq/segments: the files that messages are kept in. `Varint` has what the code uses of Go's package
-- encoding/binary, `File` file.go and iterator.go, and `Dir` dir.go; the other children are what is proved of them.
mod Tests
pub mod Varint
pub mod File
pub mod Dir
pub mod Frames
pub mod Opening
pub mod Reading
pub mod Entries
pub mod Others
pub mod Use
