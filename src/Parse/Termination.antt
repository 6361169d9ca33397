-- ===== src/Parse/Termination.antt =====
-- Every part of the parser of src/parse.c comes to an end.
pub mod Scopes
pub mod Literals
pub mod Postfix
pub mod Operators
pub mod Statements
pub mod Branches
pub mod Program
