-- ===== src/Kernel.antt =====
-- What the modules use of the kernel: error numbers, error pointers, access to user memory, and
-- the calls that obtain and release resources.
mod Errno
mod User
mod Bytes
mod Trace
mod Ledger
pub mod Sample
pub use Errno.*
unfoldable pub use User.*
unfoldable pub use Bytes.*
unfoldable pub use Trace.*
unfoldable pub use Ledger.*
