-- ===== src/Py.antt =====
-- Parts of Python's own vocabulary that the program uses: texts, dictionaries, exceptions.
pub mod Text
pub mod Dict
pub mod Exec
pub mod Sort
pub mod Number
