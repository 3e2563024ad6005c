-- ===== src/Lib.antt =====
-- Scroom, a viewer for 2D data: models and theorems for its core libraries.
--
-- The parts and how they interact. A bitmap is cut into tiles. The bytes of a tile stand in a blob,
-- which holds them uncompressed only while somebody uses them, and otherwise in pages of the page
-- provider. Loading, reducing, compressing and caching are jobs of the thread pool, which drops
-- the jobs whose queue is gone. A view caches what it needs of a tile in a tile view state.
-- Rectangles and segments are the geometry of all of it.
--
-- Which file models which part:
-- - Common: names that all files share. Common/Int has the signed integers: an int of the program
--   is an integer of the model, so the theorems are about runs without overflow of int, which C++
--   leaves undefined. A size_t or a count is a natural number.
-- - Segment: libs/util/inc/scroom/linearsegment.hh, the class Segment at T = int.
-- - Rectangle: libs/util/inc/scroom/point.hh and libs/util/inc/scroom/rectangle.hh at T = int.
-- - Blob: libs/memory-manager/src/memoryblobs.cc, the class Blob: `load`, `unload`, `compress`, `get`,
--   `get_const` and `initialize` are the members of that name, malloc and free act on a heap.
-- - Pages: libs/memory-manager/src/swapbasedblockallocator.cc and the class PageProvider.
-- - ThreadPool: libs/threadpool/src/threadpoolimpl.cc and queue.cc. A step of a thread is what it
--   does between taking and leaving a mutex, so a run is any interleaving of such steps.
-- - TileView: libs/tiled-bitmap/src/tileviewstate.cc.
-- - QueueJumper: the class QueueJumper of libs/threadpool/src/threadpoolimpl.cc.
-- - Progress: libs/util/src/progressinterfacehelpers.cc. Its doubles are a type parameter; a theorem
--   about bounds takes fixed-point numbers.
-- - Layer: libs/tiled-bitmap/src/layer.cc: the grid of tiles, and the rows that a DataFetcher fills.
-- - Pyramid: `initialize` and `connect` of libs/tiled-bitmap/src/tiled-bitmap.cc, and
--   libs/tiled-bitmap/src/layercoordinator.cc.
-- - SampleIterator: the class SampleIterator of libs/scroom/inc/scroom/bitmap-helpers.hh.
-- - LayerOperations: libs/tiled-bitmap/src/layeroperations.cc and cmyklayeroperations.cc. Its children
--   Reduce, Indexed and Cache are the functions `reduce` that average, those that keep indices into a
--   colormap, and the functions `cache`.
-- - CompressedTile: libs/tiled-bitmap/src/compressedtile.cc, with the threads in `do_load` counted by
--   the place where they are.
-- - LayerSpec: libs/tiled-bitmap/src/layerspecforbitmap.cc.
-- - Bookkeeping: libs/util/inc/scroom/impl/bookkeepingimpl.hh, the class MapBase.
-- - Pipette: sumPixelValues of libs/tiled-bitmap/src/layeroperations.cc, and getPixelAverages of
--   libs/tiled-bitmap/src/tiledbitmappresentation.cc.
-- - SizeDeterminer: plugins/transparent-overlay/src/sizedeterminer.cc.
-- - Ruler: calculateInterval of gui/ruler/src/ruler.cc. Its loop has fuel for 80 times the range
--   powers of ten.
-- - View: the position and the zoom in gui/src/view.cc; its children are Anchors and Shown for what stays in its
--   place, and Items, Zooms and Handlers for the range of the zoom.
-- - PluginManager: gui/src/pluginmanager.cc, its state machine.
-- - ProgressBar: gui/src/progressbarmanager.cc.
-- - NeededTiles: libs/tiled-bitmap/src/tiledbitmapviewdata.cc.
-- - Redraw: `redraw` of libs/tiled-bitmap/src/tiled-bitmap.cc.
-- - Tools: toolButtonToggled, addToolButton and the tool bar of gui/src/view.cc, with
--   plugins/measure/src/measure.cc.
-- - PipetteHandler: plugins/pipette/src/pipette.cc.
-- - Selections: TweakSelection and TweakPixelSelection of gui/src/view.cc.
-- A file X/Examples holds the runs at concrete inputs for the theorems of X.
--
-- States are records, operations functions on them, and what a component does in the course of
-- time a step relation `Step` with the states that can be reached, `Reach`. A result `none` stands
-- for a failed assertion, a defect message, an exception or a null pointer that is used; a theorem
-- says where it does not occur. Some loops run on fuel, for which
-- `none` says that it does not suffice: for `fetch_data` of Layer it is the number of rows of tiles and one, for
-- `initialize` of Pyramid the larger size of the bitmap and one, for the interval of Ruler 320 times the
-- range and one, for `doWork` of ProgressBar the number of bars and two, for `updateZoom` of View the sum of
-- the sizes and one, and the calls of `doWork` of PluginManager are counted by the theorem; the results say
-- that this much is enough. All other recursion is structural.
--
-- Not modelled: GTK, cairo and libtiff, zlib (compressBlob and decompressBlob are parameters of the
-- blob, with their round trip as a hypothesis), floating point geometry, and the rest of the gui.
pub mod Common
pub mod Blob
pub mod Bookkeeping
pub mod CompressedTile
pub mod Layer
pub mod LayerOperations
pub mod LayerSpec
pub mod NeededTiles
pub mod Pages
pub mod Pipette
pub mod PipetteHandler
pub mod PluginManager
pub mod Progress
pub mod ProgressBar
pub mod Pyramid
pub mod QueueJumper
pub mod Rectangle
pub mod Redraw
pub mod Ruler
pub mod SampleIterator
pub mod Segment
pub mod Selections
pub mod SizeDeterminer
pub mod ThreadPool
pub mod TileView
pub mod Tools
pub mod View
