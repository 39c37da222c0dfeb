-- ===== src/Examples.antt =====
-- Concrete instances of the library's interfaces, tests of the definitions on them, and the
-- theorems applied to them.
mod Toy
mod Numbers
mod Group
mod Data
mod Commitments
mod Conversions
mod Opened
mod Signed
mod Instance
mod Roots
mod Euclid
mod Factors
mod Drawn
mod Waits
mod Keyed
mod Sold
mod Exchanged
mod Tried
