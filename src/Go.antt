-- ===== src/Go.antt =====
-- What the program takes from the Go language and its standard library.
pub mod Error
pub mod Result
pub mod Strconv
pub mod Kernel
pub mod Threads
pub mod File
