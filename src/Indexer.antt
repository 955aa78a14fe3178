-- ===== src/Indexer.antt =====
-- processor/tile_indexer.go: which bands of the files that the index service names a request reads.
-- The service's answer is the input. An index, a length and a stride are numbers from 0 on; times are
-- numbers, as are the nanoseconds of time.Time. Indices and Range are the two selections on an axis,
-- Granules the loop over what they picked; Chosen, Ascending and Selected are about the first, Between
-- and Nearest about the second, and Rank and Odometer about the loop.
-- Files has the loops over the files around them, which Entries and Unnamed are about.
pub mod Axes
pub mod Indices
pub mod Chosen
pub mod Ascending
pub mod Selected
pub mod Range
pub mod Granules
pub mod Rank
pub mod Odometer
pub mod Files
pub mod Entries
pub mod Unnamed
pub mod Between
pub mod Nearest
mod RangeTests
mod GranuleTests
mod FileTests
mod Tests
