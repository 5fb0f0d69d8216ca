-- ===== src/Sample.antt =====
-- A small library in the place of OpenSSL, for runs on concrete inputs: numbers of any size, and a
-- cyclic group of 101 points, which stands for a curve over the numbers below 97.
pub mod Numbers
pub mod Library
pub mod Group
pub mod Data
pub mod Proto
pub mod Pair
pub mod Files
mod Datasets
mod Service
mod Montgomery
mod Programs
mod Witnesses
mod Parties
mod Run
mod Keys
