-- ===== src/Lib.antt =====
-- Rugix: the formats and the chunking below its update bundles, a boot flow that installs them, and
-- the manager of the applications on an installed system.
--
-- A bundle is a stream of tagged atoms (crates/libs/rugix-bundle): values, and segments that nest.
-- Payloads are divided into blocks by a chunker (crates/libs/rugix-chunker), and the block index
-- lists the hash, the offset and the size of every block, so that a client fetches only the blocks
-- that it does not have. The builder packs payloads, as they are or in blocks, with a header that holds
-- their hashes; the reader checks the header and every block and payload that it decodes.
--
-- Files, and the code that they are about:
--
--   Common           names, Boolean tests, lists, machine arithmetic and results that all files share
--   Stlv             crates/libs/rugix-bundle/src/format/stlv.rs: `read_varint`, `write_varint`,
--                    `read_atom_head`, `write_atom_head`, `write_value`, `skip`, under their names.
--                    A source is the list of the bytes that are left, as with a `ReaderSource` over a
--                    slice; a writer is the list of the bytes that were written; `bail!` is `err`, a
--                    failing assertion is `panic`. Stlv/Size, Varint, Head, Skip and Fuel hold the
--                    proofs, Stlv/Tests the runs on concrete bytes.
--   Decoder          crates/libs/rugix-bundle/src/format/decode.rs and encode.rs: `Decoder` with its
--                    limits, `next_atom_head`, `read_value`, `skip`, and the encodings of integers and
--                    Booleans. Decoder/Values, Segments and Fuel hold the proofs.
--   BootFlow         crates/apps/rugix-ctrl/src/system/boot_flows: errors, environments, and the record
--                    `UbootTools` for `load_vars` and `set_vars` of boot/fwenv.rs. BootFlow/MenderUboot is
--                    `MenderUboot` of mender.rs; a boot group is its index, and the state is whatever the
--                    tools keep. Common/Text holds what the flow uses of strings. BootFlow/Contract is
--                    the trait `BootFlow` of mod.rs as a record, with what its comments promise;
--                    BootFlow/Storage has files and operations on them that may be interrupted.
--                    BootFlow/Rugix is `RugixBootFlow`, its children are `GrubEfi`, `RpiTryboot`,
--                    `RpiUboot` and `Uboot`, with the functions of crates/apps/rugix-ctrl/src/boot and of
--                    crates/libs/rugix-common/src/boot/grub.rs and tryboot.rs that they call. `commit`
--                    and `set_try_next` give the operations on files in their order.
--   UbootEnv         crates/libs/rugix-common/src/boot/uboot.rs: `from_bytes` and `to_bytes`.
--   Chunker          crates/libs/rugix-chunker/src/lib.rs: the trait `Chunker` as a record of a scan
--                    and of the machine that reads byte by byte and that the scan agrees with;
--                    `chunks` is the provided method. Chunker/Fixed is `FixedSizeChunker`,
--                    Chunker/Casync and Chunker/Table are casync.rs, Chunker/Algorithm is
--                    `ChunkerAlgorithm` and `AnyChunker`, Chunker/Names its `Display` and `FromStr`.
--                    Chunker/Casync/Bytewise shows that the scan of casync.rs, which skips the start of a
--                    block, is the scan of a machine; Chunker/Machine, Sizes, Chunks, Instances and
--                    Streams carry that to whole streams.
--   BlockIndex       crates/libs/rugix-bundle/src/block_encoding/block_index.rs: `BlockIndex`,
--                    `BlockIndexBuilder` (`Builder`) and `compute_block_index`, for any hash algorithm
--                    and any chunker. The client and the chunkers meet in the record `Chunker`.
--
--   BlockCodec       crates/libs/rugix-bundle/src: block_encoding/mod.rs and block_table.rs, and `decode_into`
--                    of reader.rs (BlockCodec/Decode): a round of its loop in parts (`fetch`, `fetch_again`).
--                    Integrity is about any input; Table, Encoding, Sizes, Blocks and Roundtrip are about
--                    what was encoded, Plain about payloads without a block encoding. The payload target
--                    is a record, of which a file is an instance.
--   Reader           the rest of reader.rs: the searches (`skip_until_start` and its like are one loop with
--                    what is wanted), `read_into_vec` and the expectations. Reader/Copy, Passing and Ends
--                    hold the proofs.
--   Bundle           `BundleReader` (`open_bundle` is its `start`) and `PayloadReader` (`decode_payload` is
--                    `decode_into` with its end, `skip_payload` is `skip`), and the writing of a bundle in
--                    builder.rs. Bundle/Authentic, Opening and Unpacking hold the proofs; Bundle/Packing is
--                    `pack` of builder.rs at the payloads of a manifest; Bundle/Signing is
--                    `bundle_hash` and `add_bundle_signature` of lib.rs; the client of the
--                    bundle's structs is the record `Format`.
--
--   Apps             crates/apps/rugix-ctrl/src/apps/manager.rs: the files of one app as the record `World`,
--                    and a monad `M` over it in which an effect succeeds, fails or is interrupted as a
--                    schedule says. Apps/Manager is the part of `AppManager` that keeps the state file,
--                    under the names of its methods (`deactivate_app` is `deactivate`); `do_switch` is in
--                    parts that are named for what follows an outcome. Apps/Generations is its part on
--                    the directories of generations. Apps/Steps has the active generation of a file;
--                    Apps/Triples has the rules for a run's parts, and Switching, Outcomes, Recovery,
--                    Keeping, Restart, Rollback, Collection and Removal hold the proofs.
--
--   GrubEnv          crates/libs/rugix-common/src/boot/grub.rs: `grub_envblk_encode` and
--                    `grub_envblk_decode`. GrubEnv/Decoding and Roundtrip hold the proofs.
--   Disks            crates/libs/rugix-common/src/disk/mod.rs: partition tables, `validate` as the loop over
--                    a cursor that holds its variables. Disks/Repart is repart.rs, a round of its loop in
--                    parts (`place`, `available_blocks`, `put`, `advance`); Disks/Fitting and Layout, Growth and
--                    Checks hold the proofs. Sums and differences of block numbers panic out of range.
--
-- Integers: lengths are `u64` and hashes `u32`, with the wrap-around of shifts and rotations written
-- out. A sum of sizes is not cut to 64 bits, since a stream in memory is shorter than that.
--
-- Fuel: the searches of the reader, and `read_into_vec`, read a head in every round, as `skip` does; the
-- copying of a payload takes a byte. `skip` reads a head of at least five bytes in every round, and has
-- one more round than the source has bytes; so does the decoder. `process` takes at least one byte in every round, and has as
-- many rounds as the input has bytes. The iterator of `chunks` is bounded in the same way.
--
-- A run of the app manager is as long as its operation; its schedule may end early, and the effects
-- beyond it succeed. A removal of a directory is one effect, and the timestamps are texts.
--
-- Parameters: the hash algorithms (crate si_crypto_hashes) with the laws that slices may be joined and
-- that a hash has the size of the algorithm, and the floating-point estimate of the discriminator of
-- the content-defined chunker, of which nothing is assumed.
-- A payload's header names its hash algorithm and
-- its compression by numbers (`Algorithms`); compression is a coder with its inverse, the structs of a bundle are a `Format`, the checksum of an
-- environment image and the test for UTF-8 are an `Encoding`, the digest of a Grub block (crate sha1)
-- is any function, and a provider of stored blocks is a function. U-Boot's tools are the record
-- `UbootTools`: variables with plain names and values are set, and all others stay. That a call of
-- them succeeds is a hypothesis where it is needed.
--
-- Interruptions of a boot flow: the operations on files stop between two of them, or within a write, of
-- which any part is done. The source synchronizes the new files before it renames them (`write_synced`);
-- a rename, or another write such as that of the digest of a Grub block, may be missing on the disk, or be
-- there in part, although later operations are there. Where a theorem needs that each operation is on the
-- disk before the next one (`InOrder`), it says so.
--
-- Not modelled: the pretty printer, file and network I/O, generated code, what the macros make of the
-- structs of a bundle, command lines, the verification of signatures,
-- the orchestrators of apps, the parts that mount or partition, and the boot flows of RAUC, of Mender
-- over Grub, of systemd-boot and of custom controllers. What a boot loader does with the files of a flow
-- is not part of the repository.
pub mod Apps
pub mod BlockCodec
pub mod BlockIndex
pub mod BootFlow
pub mod Bundle
pub mod Chunker
pub mod Common
pub mod Decoder
pub mod Disks
pub mod GrubEnv
pub mod Reader
pub mod Stlv
pub mod UbootEnv
