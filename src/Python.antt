-- ===== src/Python.antt =====
-- What the code uses of Python: values of a dynamic type, exceptions, and the library functions
-- that it calls. The children declare them, and this module passes them on.
mod Values
mod Outcomes
mod Libraries
mod Effects
unfoldable pub use Values.*
pub use Outcomes.*
pub use Libraries.*
unfoldable pub use Effects.*
