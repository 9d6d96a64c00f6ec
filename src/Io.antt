-- ===== src/Io.antt =====
-- io.go: reading from and writing to a `bytes.Buffer`. A buffer is the list of its unread bytes;
-- a reader returns its value with the bytes that are left, and a writer returns the longer buffer.
-- `bytes.Buffer` never reports a write error (it panics when out of memory), so the writers'
-- error branches are dead and a writer is a total function.
mod Codec
mod Clock
pub mod Encoding
pub mod RoundTrip
pub mod Limits
pub mod Separated
unfoldable pub use Codec.{Reader, pure, ◌>>=◌}
unfoldable pub use Codec.*
unfoldable pub use Clock.*
