-- ===== src/Collections.antt =====
-- Python's `dict` and `set`, as the program uses them: association lists and duplicate-free lists
-- over a decidable equality, with the laws that the components compute by.
pub mod Dict
pub mod Set
