-- ===== src/Lib.antt =====
-- Verification library of MemTierGDS, for its Python code: how traces of embedding lookups are made
-- from Criteo rows, DLRM files or random numbers, how they are read, the statistics that decide the
-- sizes of the memory tiers, the benchmark's loops over a trace and the file of its results, the
-- datasets that cut a file into batches and the prototype's benchmark of them, the script that writes
-- an embedding table, and the runtime of the library's binding.
--
-- The parts, and how they interact. Rows of Criteo text become ids (Criteo), which are saved as a
-- trace (Preprocess), as those of DLRM files are (Convert); a trace is read in batches of ids or of
-- block ids (Trace), and each batch is counted, run through one LRU simulation per DRAM size, and
-- divided among GPUs (Analyze). The benchmark (Bench) runs over the batches of such a trace, or of one
-- that is drawn (Workload), and counts the same statistics. The prototype's benchmark (Prototype)
-- runs over the batches of the two datasets of a file (Datasets). Each function of the source has a
-- definition of the same name.
--   Base      strings, exceptions, sets, dicts, sorting, and cutting a list into slices. `Result` is
--             the outcome of a call: a value or the exception's class. Base/Numpy has what is asked
--             of `np.unique` and `np.array_split`.
--   Criteo    memtier_embedding_bench/python/criteo_trace_dataset.py. Hash: `stable_hash64`, over a
--             BLAKE2b that is a parameter. Sizes: `parse_hash_sizes` and
--             `field_offsets_from_hash_sizes`. Line: `parse_criteo_line` and `iter_criteo_rows`, a file
--             being the list of its lines. Ids: `categorical_to_ids`.
--   Trace     memtier_embedding_bench/python/trace_reader.py. The class is the record
--             `EmbeddingTrace`; what stands at its path is a value of `Source`, so that `init` is its
--             `__init__`. An array is a list with its width. The iterators return the list of the
--             batches that they yield, or the first exception.
--   Analyze   memtier_embedding_bench/scripts/analyze_trace.py. Lru: the `OrderedDict` of a simulation
--             is the list of its keys, oldest first. Overlap: `batch_multi_gpu_overlap`. Percentile:
--             `percentile`. Coverage: the `Counter` of the blocks and `coverage`. Report:
--             `analyze_trace_file`, with the loop over the batches, and `write_csv`.
--   Workload  memtier_embedding_bench/python/embedding_workload.py: the synthetic traces and
--             `estimate_block_reuse`. The random generator is a parameter with a state. Main: `main`, by
--             the array and the `.json` file that it leaves, and how the trace reader finds them.
--   Bench     the benchmark's loops over the batches of a trace, and what both count. Staging:
--             memtier_embedding_bench/python/baseline_cpu_staging.py, which reads the blocks of each
--             batch from the table's file; its child Generated is about the file of EmbeddingFile.
--             Embedding: memtier_embedding_bench/python/
--             memtier_embedding.py, whose C library is a parameter; an action carries the library's
--             state, the object's handle and the calls made so far, and returns them after a raise.
--             Torch: baseline_torch_embedding.py beside them, over a bag that is a parameter. Log: the
--             file to which the programs append their results, and scripts/plot_results.py, which
--             loads it.
--   Preprocess  memtier_embedding_bench/scripts/preprocess_criteo_trace.py: `preprocess` up to the file
--             that it saves, and `preprocess_stats` with the report that it returns. How NumPy
--             takes values that do not fit is a parameter.
--   Convert   memtier_embedding_bench/scripts/convert_dlrm_trace.py: `convert` up to the file that it
--             saves, and `convert_stats` with the report that it returns. Sparse:
--             `detect_format` and `load_sparse`, over what stands in the input. What these two
--             scripts open at the output once they have saved it is in Trace/Savez.
--   Datasets  memtier_pytorch/memtier/dataset.py: the two datasets over a file of rows. The extension
--             that reads the file is a parameter.
--   Prototype  memtier_pytorch/memtier/benchmark.py and the example that runs it. The process, with CUDA,
--             PyTorch, the clock and the extension, is a parameter with a state; an action returns the
--             state also after a raise (Base/Action). Loops and Paths: `run_baseline`, `run_uvm` and
--             `run_all`. Format: `format_results`. Example: memtier_pytorch/examples/
--             run_memtier_dataloader.py, from the file that is there or is made to what it prints.
--   EmbeddingFile  memtier_embedding_bench/scripts/generate_embedding_file.py: the file is the list of
--             the bytes written, and the random generator is a parameter with a state.
--   ObjectApi python/memtier. Chunks: `load_chunks` of chunks.py, at a file of given bytes, for
--             offsets and lengths that are not negative. Runtime: the globals of _ctypes.py as a
--             state, the C library as a parameter, and `hints_to_mask`. Tensor: `read_into_tensor`
--             and `load_tensor` of tensor.py. Lifecycle: any calls of these, one after the other.
--             Index: `MemTierDataset` of dataset.py.
--   Tests     runs on small inputs, and each theorem at an input that meets its hypotheses.
--
-- Loops are recursion on the list that they run over, or on the number of batches that are left. Fuel
-- is used twice: the index of a `.jsonl` file runs with the length of the file, since each line takes
-- a byte at least, and the digits of a number with one more than the number, since division by 10
-- makes it smaller.
--
-- What is not modelled: floating-point numbers (a rate or a ratio is the pair of its numerator and
-- denominator, and the DRAM sizes are the numbers of bytes that the code computes from whole
-- gigabytes; the fit of the Zipf slope is a parameter), the parsing of command lines, the reports as
-- JSON, the messages of exceptions, timings (in the prototype and the Torch baseline a clock is a
-- parameter), negative batch indices of the trace reader (no caller passes one), bytes of a text
-- file that are not UTF-8, percentages other than the two that are called, white space above
-- U+00FF and digits that are not ASCII, the drawing of plots, and the code in C++ and CUDA.
pub mod Analyze
pub mod Base
pub mod Bench
pub mod Convert
pub mod Criteo
pub mod Datasets
pub mod EmbeddingFile
pub mod ObjectApi
pub mod Preprocess
pub mod Prototype
pub mod Tests
pub mod Trace
pub mod Workload
