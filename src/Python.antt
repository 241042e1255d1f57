-- ===== src/Python.antt =====
-- What the scripts use of Python: exceptions, integers, JSON values, `json.dumps`, text tests.
pub mod Result
pub mod Int
pub mod Coroutine
pub mod Json
pub mod Text
