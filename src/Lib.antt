-- ===== src/Lib.antt =====
-- The verification library of MLVFS, a file system that shows a Magic Lantern video file (.MLV)
-- as a directory of DNG frames.
--
-- An MLV file is a sequence of blocks in one or more chunk files. mlvfs/index.c scans the chunks
-- once, sorts what it found by time and keeps the result in an IDX file beside the video: Index.
-- A read of a frame asks mlvfs/resource_manager.c for the frame's image buffer, which is made by
-- a callback on a miss and evicted when too many are held: Cache. The two meet in the callback,
-- process_frame of mlvfs/main.c, which finds the frame by the index, reads its pixels, and makes
-- the header of the DNG file by mlvfs/dng.c: Render, Dng. mlvfs_read of mlvfs/main.c copies the
-- range that was asked for from the buffer: Read. A frame is found by the number in its file
-- name: FrameNumber. mlvfs_resolve_path splits a path into the MLV file and the path inside it,
-- and mlvfs_resolve_virtual finds the file that backs a path: Paths. The handlers of the
-- requests of the kernel pass that file to the system calls, which are parameters: Handlers.
-- mlvfs_readdir lists the frames that were counted, and mlvfs_getattr gives them attributes:
-- Readdir, Getattr. get_image_data of mlvfs/main.c reads the packed pixels of a frame, which
-- mlvfs/dng.c unpacks: Unpack. mlvfs/wav.c reads the sound of the blocks that the index lists:
-- Wav. mlvfs/gif.c makes an animated preview of ten frames: Gif. mlvfs/histogram.c gives the
-- median by which a frame is deflickered.
--
-- Files, with the code they model:
--   Base            numbers, lists, strings, little-endian words and reads of a file, shared by all
--   Cache           mlvfs/resource_manager.c: the globals and every operation but free_all_image_buffers
--   Cache/Cleanup   image_buffer_cleanup against a description without pointers
--   Cache/Eviction  what a cleanup may free
--   Cache/Update    writes through a buffer's pointer
--   Cache/Requests  get_or_create_image_buffer on a hit and on a miss
--   Cache/Filled, Cache/Contract, Cache/History   what the clients see over a history of calls
--   Cache/Reopen    a buffer that is released and requested again
--   Attributes      the attributes by path of mlvfs/resource_manager.c
--   FrameNumber     the names of DNG files: get_mlv_frame_number and mlvfs_readdir of mlvfs/main.c
--   Getattr         mlvfs_getattr of mlvfs/main.c, and the sizes of DNG files of mlvfs/dng.c
--   Getattr/Frames   the attributes of frames
--   Dng             the entries of a DNG file's directories, of mlvfs/dng.c
--   Dng/Tags        the numbers of mlvfs/dng_tag_codes.h, dng_tag_types.h and dng_tag_values.h
--   Dng/Integers, Dng/Cameras, Dng/Focal   signed integers, and the tables of cameras
--   Dng/Header, Dng/Build   what dng_get_header_data of mlvfs/dng.c fills its tables from, and the
--                   tables and the header
--   Dng/Tiff        a reader of TIFF files
--   Dng/Entries, Dng/Texts, Dng/Filled, Dng/Directory   entries and directories are read back
--   Dng/DateFits, Dng/Writable, Dng/Tables   what the tables are filled from fits them
--   Dng/RoundTrip, Dng/Reader, Dng/DateTime   the header and its date as a reader finds them
--   Gif             the bytes of the preview and gif_get_size of mlvfs/gif.c
--   Gif/Size        how long the file is
--   Gif/Decode      a reader of GIF image data, and what it reads of the file
--   Handlers        the handlers of mlvfs/main.c that change or open files
--   Handlers/Errors   their errors on virtual files
--   Handlers/Sandbox/Redirect, Handlers/Sandbox/Requests   the paths that they give to the system
--   Headers         mlv_get_frame_headers of mlvfs/main.c
--   Headers/Search, Headers/Rawi   the entry at which its search ends, and the RAWI block before
--   Headers/Count   the frames that are counted are those that are found
--   Histogram       mlvfs/histogram.c, with the median in Histogram/Median
--   Paths           the path functions of mlvfs/main.c
--   Paths/Endings   the ends of paths, and joined paths
--   Paths/Names     paths as lists of names
--   Paths/Resolve   mlvfs_resolve_path by the names of a path
--   Paths/Backing   mlvfs_resolve_virtual by the names of a path
--   Read            the DNG, GIF and log branches of mlvfs_read of mlvfs/main.c
--   Read/Range      the range of a file that a read returns
--   Read/Cached     the read of a DNG file through the cache
--   Read/Handler    mlvfs_read, and the read of a frame by its path
--   Readdir         mlvfs_readdir and get_mlv_basename of mlvfs/main.c
--   Readdir/Listing   the listing of an MLV file
--   Readdir/Frames   the frames that are listed can be found under their names
--   Render          process_frame and deflicker of mlvfs/main.c
--   Render/Whole, Render/Steps, Render/Process, Render/Frames   a frame that is found is rendered whole
--   Stripes         the corrections of mlvfs/stripes.c, and in Stripes/Columns what one does
--   Unpack          the unpacking of pixels of mlvfs/dng.c, and get_image_data of mlvfs/main.c
--   Unpack/Pixel    the bits of one pixel
--   Unpack/Image    the pixels of a frame in a file
--   Unpack/Compressed   get_image_data of mlvfs/main.c with its compressed branches
--   Unpack/Untile, Unpack/Pixels, Unpack/Frames   the lines and columns of a tiled frame
--   Wav             wav_get_data_direct and the clamp of wav_get_data of mlvfs/wav.c
--   Wav/Headers     wav_get_headers, has_audio and wav_get_size of mlvfs/wav.c
--   Wav/Headers/Search   when the headers are found
--   Wav/File, Wav/File/Chunks, Wav/File/Riff   the header of a WAV file, and what a reader finds in it
--   Wav/Round, Wav/Delivered, Wav/Read   one round of its loop, the loop, and the whole read
--   Index/Row, Index/Sort    frame_xref_t and xref_sort of mlvfs/index.c
--   Index/Block     the block headers of mlvfs/mlv.h
--   Index/Scan      the loops over chunks and blocks in make_index
--   Index/Encode    the XREF block that make_index builds, and its readers
--   Index/Store     load_chunks, load_index, save_index, build_index, force_index, get_index and
--                   mlv_get_frame_count over a disk of named files
--
-- A file is a list of bytes, a disk a map from names to files together with the names that can
-- be written. A read of n bytes at a position is read_at, which fails where fread returns less
-- than one item. The state of the cache is a record that every operation takes and returns; an
-- address is a number that grows with every allocation, and is never used twice. What runs under
-- a lock is one step.
--
-- The loops run on fuel: the cleanup on the buffer count, which every round lowers, the sort on
-- the length of the table, which bounds n, and the scans on the length of the file and one more,
-- since every round moves on by at least a byte. That the fuel is enough is proved with the
-- loops: the scan's in Index/Scan/Fuel, the load's in Index/Store/Total, that of the loop of
-- mlvfs_resolve_path, on the length of the path and one more, in Paths/Resolve, the sort's and
-- the cleanup's by their descriptions.
--
-- Not modelled: the failure of malloc outside new_image_buffer and register_dng_attr, threads
-- that interleave inside a call, and floating-point image processing. The computations on
-- floating-point numbers inside the functions that are modelled are parameters, and so are the
-- decoders of LZMA and lossless JPEG. What an uninitialised variable holds is a parameter named
-- stack. The system calls, stat, opendir, mktime and slre_match are parameters. What a path
-- means is that of a POSIX system.
pub mod Base
pub mod Attributes
pub mod Cache
pub mod Dng
pub mod FrameNumber
pub mod Getattr
pub mod Gif
pub mod Handlers
pub mod Headers
pub mod Histogram
pub mod Index
pub mod Paths
pub mod Read
pub mod Readdir
pub mod Render
pub mod Stripes
pub mod Unpack
pub mod Wav
