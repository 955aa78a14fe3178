-- ===== src/Drill.antt =====
-- worker/gdalprocess/drill.go: what a worker computes over the pixels of a polygon.
-- Numbers: the floating-point numbers; Deciles: `computeDeciles`; Stats: the statistics of one band;
-- Read: `readData`, the loop over the bands. Quantiles, Padding and Rows are about these.
pub mod Numbers
pub mod Deciles
pub mod Padding
pub mod Quantiles
pub mod Stats
pub mod Read
pub mod Single
pub mod Rows
mod Tests
