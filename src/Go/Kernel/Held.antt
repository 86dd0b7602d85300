-- ===== src/Go/Kernel/Held.antt =====
-- Which descriptors a piece of code has acquired and not given back: a triple over any kernel.
mod Counts
mod Calls
mod Rules
mod Parts
pub use Counts.*
pub use Calls.*
pub use Rules.*
pub use Parts.*
