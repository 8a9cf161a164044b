-- ===== src/Lib.antt =====
-- VecFetch, the vector search engine of this repository: its data files, its address columns and what
-- they stand on, and the ranking of the records that a query reads.
--
-- A build writes the vectors and their payloads into a data file, record by record, and groups
-- their addresses by cluster. The program packs the places of the records of a cluster into an
-- address column: page counts in bits, in blocks of equal size, with the first page of each
-- block. A query decodes the column with SIMD kernels: the bits are unpacked, eight blocks are
-- transposed into interleaved rows, summed, and transposed back. It then reads the records,
-- copies the vectors, ranks them by their distance and keeps the payloads of the nearest. The
-- parts, each with the file that models it:
--   Simd/BitUnpack.antt       src/simd/bit_unpack.cpp: BitUnpack is bit_unpack
--   Simd/PrefixSum.antt       src/simd/prefix_sum.cpp: ExclusivePrefixSum and its Multi form
--   Simd/Transpose.antt       src/simd/transpose.cpp: Transpose8xN and TransposeNx8
--   Codec/Bitpack.antt        src/codec/bitpack_codec.cpp: BitpackCodec
--   Codec/Dict.antt           src/codec/dict_codec.cpp: DictCodec
--   Query/BufferPool.antt     src/query/buffer_pool.cpp: BufferPool, with the allocator a parameter
--   Query/ResultCollector.antt
--                             src/query/result_collector.cpp: ResultCollector, over a priority queue
--   Query/RerankConsumer.antt and its children Rerank and Payloads:
--                             src/query/rerank_consumer.cpp, and L2SqrBatch1xN of
--                             src/simd/rerank_distance.cpp as l2_sqr_batch
--   Storage/DataFile/Writer.antt and Reader.antt:
--                             src/storage/data_file_writer.cpp and data_file_reader.cpp
--   Storage/PackCodes.antt and its child Unpack:
--                             src/storage/pack_codes.cpp
--   Index/IvfBuilder.antt and Index/IvfBuilder/Data.antt:
--                             src/index/ivf_builder.cpp: the data phase of WriteIndex
--   Storage/AddressColumn.antt and its children Encoder, Decoder and RawTable:
--                             src/storage/address_column.cpp and include/vdb/storage/address_column.h
--   Status.antt, Types.antt, Types/Column.antt:
--                             include/vdb/common/status.h and types.h
-- Simd/Register.antt is the meaning of the AVX2 intrinsics that the kernels call, lane by lane.
-- The dictionary codec, the packed sign bits and the pool of I/O buffers stand by themselves.
-- Status/Action.antt is a method that returns a Status: the state comes back on an error too. The
-- texts of its errors leave out the path and the counts that the program appends.
-- OutputStream, InputFile and Sorter state what is relied on of std::ofstream, of a file that is read
-- with pread, and of std::sort. What std::aligned_alloc returns is a function of the size.
-- PriorityQueue states what the collector relies on of std::priority_queue, and a distance is the
-- rank of a float that is not NaN.
-- Prelude, Bits and Bytes hold shared tests, list and number lemmas. The other files are proofs.
--
-- A function of C++ is a function here. A buffer is a list, an output buffer the list returned, and
-- a read or write out of bounds and a division by zero are `none`. An unsigned integer is a natural
-- number, with `u8`, `u32` or `u64` where the program wraps around. A SIMD kernel is `none` too where
-- its uint32_t index or loop test would wrap: beyond 2^29 rows of eight, or from 2^32 - 8 values on. `Isa` is the choice among the
-- kernels that the build options make. A loop is recursion on a list, on its rounds, or on `Acc`; with
-- fuel in six places: read_value and write_value have one round more than the width has bits, and
-- each round moves one bit at least; decode_batches has a round for each block; drain has one round
-- more than the heap has entries, and each round pops one; read_loop has one round more than bytes to
-- read, and each round reads one at least; rank_batches has a round for each candidate, and each
-- round goes 32 candidates on.
--
-- Not modelled: floating-point arithmetic and the kernels and estimators made of it, input and
-- output beyond those interfaces, the FAISS library, the clock, and what an output vector holds after
-- an error.
pub mod Bits
pub mod Bytes
pub mod Codec
pub mod Index
pub mod Prelude
pub mod Query
pub mod Simd
pub mod Status
pub mod Storage
pub mod Tests
pub mod Types
