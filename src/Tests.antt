-- ===== src/Tests.antt =====
-- Concrete runs of the definitions, and each theorem applied at a concrete input.
mod Linear
mod Arrays
mod Ring
mod Words
mod Bitmaps
mod Trees
mod Lists
mod Hashing
mod Heaps
mod Probing
mod Sets
mod Sketches
mod Specialized
mod Graphs
