-- ===== src/Merger.antt =====
-- processor/tile_merger.go: the last stage of the tile pipeline. It masks the rasters of the
-- granules, stacks them by time and merges them into one canvas for each namespace.
-- Types: the data; Merge: `MergeMaskedRaster` and `initNoDataSlice`; Mask: `ComputeMask`; Stack:
-- `ProcessRasterStack`; Run: the loop of `RasterMerger.Run`; Namespaces and Output: what it does with
-- the canvases behind its loop, which Holes and Expressions are about. Pixels and Cells follow one
-- merge, Newest and Overlay several, Order the stack, Masking the masks and Sorting a batch.
pub mod Types
pub mod Merge
pub mod Mask
pub mod Masking
pub mod Pixels
pub mod Cells
pub mod Overlay
pub mod Newest
pub mod Stack
pub mod Order
pub mod Keys
pub mod Run
pub mod Sorting
pub mod Namespaces
pub mod Output
pub mod Holes
pub mod Expressions
pub mod Samples
mod Tests
mod MaskTests
pub mod Filled
pub mod Puts
mod OutputTests
