-- ===== src/Data.antt =====
-- data_util.cc: lines of CSV text, the two data sets as files, and the random data sets.
pub mod Absl
pub mod Csv
pub mod Files
pub mod Random
