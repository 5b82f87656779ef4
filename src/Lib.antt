-- ===== src/Lib.antt =====
-- A model of pco, the compressor of numerical sequences in pco/src, with the theorems about its codecs.
--
-- Numbers go through pco in stages. The mode splits each number into latents, which are unsigned
-- integers; delta encoding replaces latents by differences; each latent falls into a bin, and its bin's
-- symbol is coded by tANS while its offset in the bin is written as plain bits; everything ends in a bit
-- writer, and decompression goes back from a bit reader.
--
-- The files and the code they model:
--   Machine, Slice, Errors: integers of a fixed width, indexing that panics out of range, and the
--     errors of pco/src/errors.rs as values. A panic or a read of raw memory out of range is the result
--     `panic`.
--   Traps: arithmetic and shifts whose overflow is a `panic`. They stand where the tables of pco/src/ans are
--     built, in the short writes, in the sums and sizes of pages and in the ranks of the histograms. Elsewhere
--     the wrap-around of a build without overflow checks is written out, with the casts of the source.
--   Bits: pco/src/bits.rs and pco/src/read_write_uint.rs.
--   Bytes: a list of bytes as a little-endian number, the view that the bit level is stated in.
--   BufReader: better_io/src/buf_reader.rs, on a `Read` of the standard library, which is a parameter of the
--     operations; BufReader/Cycling and Filling say what its documentation promises and what the
--     buffer makes of it. A source may be interrupted again and again, so the loop has fuel.
--   BitReader, BitReader/Reading: pco/src/bit_reader.rs. `refill` and `consume` return the reader that
--     the source mutates. The source reads raw memory, which must be padded; the model says so by
--     `panic`, and the theorems ask for the padding.
--   BitWriter, BitWriter/Writing, BitWriter/Fields, BitWriter/Holds: pco/src/bit_writer.rs, with a vector as the
--     destination, and the way from the writer to the reader.
--   Latent: the trait of pco/src/data_types/mod.rs, with the types of pco/src/data_types/unsigneds.rs;
--     the width of the type is an argument.
--   Delta/Consecutive, Differences, Stream: the consecutive deltas of pco/src/delta.rs. Delta/Lookback,
--     LookbackTrip: its lookback deltas; Choose, Choosing, Chosen: the choice of lookbacks;
--     LookbackBatch: a page of one batch through all of them; Oversized: the window of 2^32 latents, whose
--     cast to u32 is 0; Dispatch: the choice between the delta
--     encodings. A latent variable's data type is its width there.
--   Ans/Spec, Encoding, Decoding: pco/src/ans/spec.rs, encoding.rs and decoding.rs; Renorm, Positions and
--     RoundTrip carry the proofs.
--     Stride, Scatter and Spreading show that the tables made from weights are valid; NodeOf says what
--     a node is, and NodeBits that the decoder is built and how many bits a node reads. Sample is a table for the tests.
--   Sort/Partition, Pivot, Heapsort: pco/src/sort_utils.rs, where usize has 64 bits; Heap and Sorting have the
--     proofs of heapsort.
--   Histogram/Builder, Recurse: pco/src/histograms.rs, with the latents passed on in their new order.
--     Describing says what bins are of a list of latents; Counts has the arithmetic of ranks and
--     bins, Progress, Runs, Turns and Sorted follow the builder through sorted latents, and Sides,
--     Recursing and Whole through the recursion.
--   Page/Table, Search: pco/src/compression_table.rs and the search of
--     pco/src/latent_batch_dissector.rs, whose sort of the standard library is a parameter; Searching
--     and Found have the proofs. Page/Dissect: the rest of that file. A slice that the source borrows
--     mutably is taken out and put back.
--   Page/Symbols: the symbols of a batch in pco/src/latent_page_decompressor.rs; Reading says what
--     bits they are read from, and Interleaved, Reverse and AnsTrip lead from the encoder to them.
--   Page/Offsets, Decompress: the rest of that file. Page/Write, Compress: write_short_uints,
--     write_uints and the rest of pco/src/latent_chunk_compressor.rs. Writing says what is written, and
--     OffsetTrip leads from the offsets that are written to those that are read; Filled says what the
--     scratch arrays hold between the symbols and the offsets, and BatchTrip joins the two loops.
--     DeltaTrip leads from the dispatch of the deltas to the match that undoes them.
--   Metadata/FormatVersion, DeltaEncoding, Mode: the files of these names in pco/src/metadata, with
--     dyn_latent.rs; DeltaEncodingTrip and ModeTrip write and read them. Metadata/PerLatentVar:
--     per_latent_var.rs. Metadata/Bin, BinTrip: bin.rs, bins.rs and the loops over a batch of bins in
--     chunk_latent_var.rs. `BitWriter/Holds` says that the
--     source of a reader holds a list of fields from its position on.
--   Standalone/Varint, VarintTrip: the varint of pco/src/standalone/compressor.rs and decompressor.rs.
--   Paging, Paging/Pages: PagingSpec of pco/src/chunk_config.rs.
--   IntMode/Multiples, Gcd, Signed: pco/src/int_mult_utils.rs and pco/src/data_types/signeds.rs.
--   Common: the libraries' names that are shared, Boolean tests, lists by native numbers, powers of two
--     and bitwise operations.
--
-- Bounds: tables have a size of at most 2 ^ 14, which is the bound that the format sets, so no state
-- leaves 32 bits. The loop of calc_gcd runs on fuel, one more than its second number, which falls at
-- every turn, and so do the loops of heapsort and of apply_sorted, on the number of latents, and the
-- recursion of the histograms, on 2 ^ w for latents of w bits, since the bounds come closer at every call.
-- The theorems show that the fuel does not run out. Every other loop is recursion on the list or on the number that the source counts.
--
-- Not modelled: floating point (the float modes, the quantisation of weights, the choice of bins), the
-- texts of errors and descriptions, bindings to other languages and the command line.
pub mod Ans
pub mod BitReader
pub mod BitWriter
pub mod Bits
pub mod BufReader
pub mod Bytes
pub mod Common
pub mod Delta
pub mod Errors
pub mod Histogram
pub mod IntMode
pub mod Latent
pub mod Machine
pub mod Metadata
pub mod Page
pub mod Paging
pub mod Slice
pub mod Sort
pub mod Standalone
pub mod Traps
