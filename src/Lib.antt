-- ===== src/Lib.antt =====
-- EleFits: a C++ library to read and write FITS files over CFITSIO. A FITS file is a sequence of
-- HDUs; each has a header of keyword records and a data unit, an image or a binary table.
--
-- The parts that are modelled, each by the module and children of its name:
-- - Prelude: shared names, tests on numbers, lists and signed integers. `Outcome` is the result of a
--   call: a value, one of the exceptions of the library, or undefined behaviour of the C++ program,
--   which stands for a read or a write past the end of a container.
-- - HduCategory: EleFitsData/EleFitsData/HduCategory.h and EleFitsData/src/lib/HduCategory.cpp. A
--   category is a sequence of trinary flags; it denotes the set of points, one option for each flag,
--   that agree with it (HduCategory.Meaning). The operators are `restrict` (&), `extend` (|),
--   `overwrite` (<<) and `toggle` (~). Constants has the predefined categories.
-- - HduFilter: the filters of the same files, with accepted and rejected categories.
-- - Position: EleFitsData/EleFitsData/Position.h, impl/Position.hpp and impl/VectorArithmetic.hpp. A
--   position is the list of its coordinates; N is an argument where the code reads it.
-- - Region: EleFitsData/EleFitsData/Region.h, boxes by two positions.
-- - Screener: RegionScreener of Region.h and EleFitsData/EleFitsData/PositionIterator.h, which have
--   the same state; `next` and `iterator_next` are their moves, `visit_region` the range-based loop.
-- - Raster: EleFitsData/EleFitsData/Raster.h, impl/Raster.hpp and Subraster.h. A raster is a shape
--   and a list of cells, a view a shape and an offset into the cells of a raster. The index of a
--   pixel is the rank by which a screener numbers the positions of the domain.
-- - Segment: EleFitsData/EleFitsData/Segment.h, intervals of rows.
-- - FileMem: EleFits/EleFits/FileMemSegments.h, FileMemRegions.h and EleFits/src/lib/
--   FileMemSegments.cpp. `rows_of_file` and `box_of_file` are the constructors from a part of the
--   file, `rows_of_memory` and `box_of_memory` those from a part of the memory.
-- - Keyword: EleFitsData/EleFitsData/KeywordCategory.h and EleFitsData/src/lib/KeywordCategory.cpp.
-- - FitsFile: EleFits/EleFits/FitsFile.h and EleFits/src/lib/FitsFile.cpp, over the calls of
--   FitsFile/Access (EleCfitsioWrapper/src/lib/FileWrapper.cpp). A method returns its outcome and the
--   object, which keeps what was done before a throw; CFITSIO is a log of calls and a parameter that
--   tells the status of each.
-- - MefFile: EleFits/EleFits/MefFile.h, impl/MefFile.hpp and EleFits/src/lib/MefFile.cpp, with the
--   actions of EleFits/EleFits/Strategy.h. The vector of handles is a list of options, `none` for a null
--   pointer; a handle is returned as its index. CFITSIO is a record of calls on a stream of HDUs
--   (MefFile.Access), and an action is what it does with a handle and the stream. MefFile.Checksums has
--   the actions of EleFits/EleFits/Action.h.
-- - ImageIo: EleCfitsioWrapper/EleCfitsioWrapper/impl/ImageWrapper.hpp and
--   EleFits/EleFits/impl/ImageRaster.hpp, the read of a region into a part of a raster, over Screener,
--   Region and Raster. What CFITSIO reads between two corners is a parameter; the state is the raster.
-- - Header: EleFits/EleFits/Header.h, impl/Header.hpp and EleFits/src/lib/Header.cpp, with the records
--   of EleCfitsioWrapper/src/lib/HeaderWrapper.cpp and impl/HeaderWrapper.hpp. The calls of CFITSIO are
--   parameters; what is relied on of them is stated on the list of cards of the header, COMMENT, HISTORY
--   and CONTINUE aside. A card is what CFITSIO reads of it: a value, a unit and a comment.
-- - HduIterator: EleFits/EleFits/HduIterator.h and impl/HduIterator.hpp, the loop over the HDUs that
--   match a filter. It asks each handle for its category, which changes the status of the handle.
-- - Compression: the choice that `CompressAuto` makes for an image, EleFits/EleFits/impl/
--   CompressionStrategy.hpp, with the constructors of EleFitsData/EleFitsData/impl/Compression.hpp and
--   impl/Quantization.hpp; a scaling relative to the noise is a fraction. Compression.Strategy has the
--   actions of EleFits/EleFits/CompressionStrategy.h and `Strategy::compress`, over the compression that
--   is requested of CFITSIO as the state.
-- - Columns: the loops over chunks of rows of EleFits/EleFits/impl/BintableColumns.hpp.
-- - Hdu: the handles of HDUs: EleFits/EleFits/Hdu.h, EleFits/src/lib/Hdu.cpp, ImageHdu.cpp,
--   BintableHdu.cpp, ImageRaster.cpp and EleFits/EleFits/impl/ImageRaster.hpp. A handle keeps a
--   status, which its calls change; its category joins the type, the status and what CFITSIO reads,
--   and filters are tested on it.
--
-- Numbers: `long` is an unbounded integer, since its overflow is undefined behaviour; the
-- conversions to `std::size_t` and `int` wrap, and the HDUs of a file are as many as `int` counts.
-- `int` of a keyword category is 32 bits. Loops over containers are structural; the loops on fuel
-- are the range-based loop over a region, the loop over the HDUs of a file, and the loop over
-- chunks of rows; their theorems tell how much fuel is enough.
--
-- Not modelled: CFITSIO (what the handles need of it is a parameter), names of HDUs and the access
-- by them, `SifFile`, actions that a user defines (MefFile takes them as parameters), names of
-- columns, messages of exceptions, the template operations that apply an arbitrary function,
-- tests, examples, benchmarks and command lines.
pub mod Prelude
pub mod HduCategory
pub mod HduFilter
pub mod Position
pub mod Region
pub mod Screener
pub mod Raster
pub mod Segment
pub mod FileMem
pub mod Keyword
pub mod Hdu
pub mod HduIterator
pub mod Columns
pub mod Compression
pub mod FitsFile
pub mod MefFile
pub mod ImageIo
pub mod Header
