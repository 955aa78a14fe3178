-- ===== src/Lib.antt =====
-- A verification library for GSKY, a server of geospatial rasters: the requests come in at the web
-- server (ows.go), whose pipelines (processor/) find the granules of a tile in an index, have worker
-- nodes (worker/) read and warp them, and merge what these return into one picture, which is
-- coloured and sent back.
--
-- Modelled, with the file of this library and the code:
-- UrlParser: utils/url_parser.go, `ParseQuery` and `unescapeUrl`, which read the parameters of a
--   request. Texts are lists of bytes. strings.ToLower is a parameter; url.QueryUnescape and
--   strings.Replace are translated as far as `ParseQuery` uses them. The loop runs on fuel, one
--   more than the length of the query: each round takes at least one byte, and the last finds none.
--   UrlParser/Request: what is read from the headers that a proxy adds.
-- Merger: processor/tile_merger.go, the last stage of the tile pipeline. Merger/Types: the rasters
--   of processor/tile_types.go and the views of their bytes as samples; Merger/Merge:
--   `MergeMaskedRaster` and `initNoDataSlice`, whose five typed cases have one body; Merger/Mask:
--   `ComputeMask`, with the strconv calls it makes; Merger/Stack: `ProcessRasterStack`; Merger/Run:
--   `RasterMerger.Run` up to the end of its loop, where each batch is sorted into masks and a stack;
--   Merger/Namespaces and Merger/Output: what it does behind the loop, where the canvases become the
--   rasters that are sent on or the variables of the band expressions; what an expression evaluates to
--   is a parameter.
--   float64 is the parameter `Float64`: its values with the comparisons, the sum and the conversions
--   that the merger uses. Sizes and offsets are not negative. The canvases of different namespaces
--   are different objects, so the map of them holds the canvases themselves.
-- Dap4: utils/dap4_ce_parser.go, `ParseDap4ConstraintExpr`, which reads the variables, index ranges
--   and filters of a DAP4 request. Dap4 itself: texts and selectors; Dap4/Parser: the rest. Texts are
--   ASCII; the values of endpoints, with `parseEndpoint`, are the parameter `Endpoints`.
-- Palette: utils/palette.go, `GradientRGBAPalette`, which makes the 256 colours of a ramp.
-- Pool: worker/gdalprocess/pool.go and process.go, `AddQueue`, `retryTask`, the loops of the processes
--   over the queue of tasks and the goroutine that replaces processes. They go on in any order: each send
--   to the queue, each receive and each trial of a task is an event of its own. What becomes of a task's
--   input and output, and of the start of a process, is given from outside. A process that dies while it
--   works on a task is seen with the trial.
-- ConcLimiter: processor/conc_limiter.go, `Increase` and `Decrease` as the steps of goroutines that run
--   in any interleaving.
-- TimeSplitter: processor/date_splitter.go, `TimeSplitter.Run`. The calendar is a parameter. The inner
--   loop runs on fuel, one more than the length of the request's time: each round adds to its start.
-- Drill: worker/gdalprocess/drill.go, `readData` from its check of pixelStat on, and `computeDeciles`:
--   the statistics of the pixels inside a polygon, band by band. Drill/Numbers: the floats, a
--   parameter; Drill/Deciles: `computeDeciles`; Drill/Stats: one band; Drill/Read: the groups of bands
--   and the rows in between. What GDAL reads and the mask of the polygon are parameters. The loop over
--   the groups runs on fuel, the number of bands and one: each round passes at least one band.
-- Indexer: processor/tile_indexer.go. Indexer/Axes: the axes of a file and of a request;
--   Indexer/Indices: `doSelectionByIndices`, whose loop over a range runs on the end of the range as
--   its fuel: each round passes an index; Indexer/Range: `doSelectionByRange`; Indexer/Granules: the
--   loop of `URLIndexGet` over the counters of the axes, on the number of their combinations and one;
--   Indexer/Files: its loops over the files of an answer, with the selection on each axis.
--   The floats are the parameter `Coords`; the texts of values in a namespace are a parameter. The
--   selectors are those of Dap4.
-- Scaler: utils/raster_scaler.go, `scale` and `Scale`. The floats with Go's conversions are a parameter.
-- DrillMerger: processor/drill_merger.go, `DrillMerger.Run` up to the text of its rows: the grouping of
--   the values by namespace and date, their weighted means, and the cells of a row, of namespaces or of
--   expressions. The floats with their texts and what an expression evaluates to are parameters; dates
--   are their texts.
-- RasterGrpc: processor/tile_grpc.go, `GeoRasterGRPC.Run`, which drops granules that came twice, cuts
--   the others into tiles and has the workers warp them. RasterGrpc itself: the tiles, whose loops run
--   on the number of pixels and one as fuel: each round passes a pixel; RasterGrpc/Stage: the rest. The
--   floats, what a worker answers and the number of workers that can be dialled are parameters. Its
--   FlexRaster has offsets that may be negative, and is not that of Merger.
-- Fusion: processor/tile_pipeline.go, `getFlexRaster` and `processDeps`, where a layer is fused from
--   others; Fusion/Layers: `findDepLayers` and `checkFusedBandNames`, with the look-ups of
--   utils/wms.go. What the pipeline of a layer answers and the scaling are parameters. The rasters are
--   those of Merger.
-- OomMonitor: worker/gdalprocess/oom_monitor.go, a round of the monitor that stops the greatest worker
--   process when memory is short, up to its signal. The files of /proc are given as texts.
-- Bands: utils/config.go, `ParseBandExpressions` and `CheckBandExpressionsComplexity`. The parser of
--   expressions is a parameter.
-- Dates: utils/config.go, `GenerateDates` and the generators of the dates of a layer. The calendar is a
--   parameter. The loops run on one more than the instants from the start to the end as fuel: each
--   round passes an instant. Dates/Mas: `GenerateDatesMas`, which brings the time stamps that the index
--   service lists to the layer's step; what the service answers is a parameter.
--   Dates/Layer: `GetLayerDates`.
-- Prelude has the lists, numbers and results that they share.
--
-- A Go function that can fail returns a `Result`: a value, an error or a panic; where a panic is the
-- only failure it is `none`. Numbers are natural numbers, and bytes and samples are bit patterns whose
-- wrap-around is written out.
--
-- Not modelled: the handlers of ows.go and the templates; the rest of the configuration; the index and its SQL;
-- the stages of the pipelines that talk to other processes, and in the indexer the request to the
-- index service and the sort of the namespaces; the encoders, which call image libraries; the
-- calls of GDAL in worker/gdalprocess; generated code and the copy of a GDAL driver under libs/.
mod Prelude
pub mod Palette
pub mod UrlParser
pub mod Merger
pub mod Pool
pub mod Dap4
pub mod ConcLimiter
pub mod TimeSplitter
pub mod Drill
pub mod Indexer
pub mod Scaler
pub mod DrillMerger
pub mod RasterGrpc
pub mod Fusion
pub mod OomMonitor
pub mod Bands
pub mod Dates
