-- ===== src/Lib.antt =====
-- A model of MemoryLatencyAnalyzer and its proofs.
--
-- The program (MemoryLatencyAnalyzer_linux/src) reads its command line in main.cpp, checks it, and starts one
-- mode: the measurements, the NUMA matrix, or one of the labs.
--
-- Cli (main.cpp): `Numbers` has parse_int, consume_int and consume_size_mib; `Options` the local variables of
-- main with their first values and the tests on an argument; `Parse` the option loop; `Plan` the checks
-- behind it and the choice of a mode with the arguments of its call. The loop recurses on the number of
-- arguments, of which each round drops one at least, so this fuel never runs out. `Readback`, `Inputs`,
-- `Bounds`, `Compose` and `Launch` are the proofs.
--
-- Spectre (spectre_v1.cpp): `Scores` has analyze_scores; `Machine` the attack loop, from victim_function to
-- retry_if_uncertain; `Reader` read_byte, read_string, run_demo and run_reliability_lab. The cache, the branch
-- predictor and the clock are the record `Machine`, a parameter of these definitions; `Clean` says what a
-- channel without noise is, and `Perfect` builds one. The static array1 is a list that is passed on. A score
-- counts hits and is a natural number; what it is compared with, 2 * second_score + 5, wraps around as a 32-bit
-- int, so that the theorems on scores have a bound. The confidence is the exact quotient, not its rounding. `Ranking`,
-- `Reload`, `Recover`, `Lab` and `Secret` are the proofs.
--
-- Latency (latency_measurer.cpp): `Sizes` has the sizes that the constructor chooses and subtract_overhead,
-- `Rings` the ring builders, `Measure` the constructor and the measurements over a processor that is a record
-- of operations, which also says whether samples.reserve gives memory. A node is its index. std::shuffle is a parameter; `RandomRing.IsOrder` is what is asked of
-- it. `RandomRing`, `StrideRing` and `Samples` are the proofs.
--
-- Topology (numa_support.cpp, cpu_info.cpp): `CpuList` and its modules `Numa` and `Info` have the two readers of
-- CPU lists, `Nodes` the NUMA nodes, `Cores` the choice of CPUs and the topology, `Caches` the cache
-- descriptors. sysfs, cpuid and sysconf are parameters. `CpuList.Agree`, `CpuList.Print`, `Homes`, `Choice` and
-- `Levels` are the proofs.
--
-- Shared (shared_memory_measurer.cpp): `Wait` has wait_for_value and wait_or_kill, `Protocol` the two
-- processes as a step relation on their flags, `Measure` measure_cross_process over what the system
-- answers, exceptions of the clock and of samples.reserve included. The sleeping loop of wait_for_value runs on fuel: a thousand rounds of a millisecond reach the
-- deadline. `Calls` says what the handshake is for, a sequence of calls, and that each step simulates it; it, `Deadline`, `Handshake`,
-- `Progress`, `Results` and `Cleanup` are the proofs.
--
-- Statistics (statistics.cpp, timer.cpp): `Summary` has quantile and summarize, `Timer` the time stamps,
-- the clock, calibrate_tsc_hz and measure_overhead_cycles over the instructions and the calls of the
-- system. A read behind a vector gives a parameter; `Quantiles.IsExact` is what is asked of the arithmetic,
-- and `Hundredths` an arithmetic that has it. `Readings` says what a round of the calibration reads, apart
-- from the code. It, `Quantiles`, `Estimates` and `Calibration` are the proofs.
--
-- Report (reporter.cpp): `Rows` has write_csv and append_history as the pieces that the stream gets,
-- `Reader` a reader of CSV, and `Csv` the proofs. How a stream prints a double is a parameter.
--
-- Session (main.cpp): `Sequence` is the mode of the measurements, which composes Statistics, Latency,
-- Bandwidth, Shared and Report, with the code that main returns; `Matrix` is run_numa_matrix. `Latencies`,
-- `Exit`, `Names`, `Rows`, `SharedRow`, `Table`, `Initiators` and `Cells` are the proofs, which start from the command line of Cli. The source
-- declares the matrix latency_ns const and assigns its cells (main.cpp:164), which does not compile; the model takes
-- it as not const.
--
-- Json is a reader of JSON texts (`Tokens`, `Values`), with lemmas on how the lines of a report are read
-- (`Lexing`, `Words`, `Numbers`, `Lines`, `Members`) and that the tokens of a value give it back
-- (`Emitting`). It parses on fuel, twice the number of tokens, which is enough.
--
-- Defensive (defensive_lab.cpp): `Lab` has the events, write_report and DefensiveLab::run over the
-- reliability lab of Spectre. `Events` and `Report` are the proofs.
--
-- Evaluation (evaluation_lab.cpp): `Real` is the record of floating-point operations, with the mean, the
-- deviation and the median; `Metrics` has the functions of the namespace Evaluation; `Run` has
-- collect_trace and EvaluationLab::run over a generator and a clock; `Layout` control_matrix and
-- write_report. `Counts`, and on the report `Listed`, `CountFields`, `ScoreFields` and `Report`, are the
-- proofs.
--
-- Bandwidth (bandwidth_measurer.cpp): `Buffers` has allocate_buffer, release_buffer and measure over what
-- the allocators and the clock answer, with the calls that are made, and `Rates` the rates and medians of its result.
-- `Release` is the proofs.
--
-- Operational (operational_lab.cpp): `Json` has json_escape and the loop over the objects of a report,
-- which defensive_lab.cpp has too; `Scenarios` has the scenarios and the counters, its `int`s as 32-bit
-- words, and `Run` write_report and OperationalLab::run. `Counts`, `Listed` and `Report` are the proofs.
--
-- Capability (cpu_capability.cpp): `Detect` has read_brand and detect over the answers of cpuid; `Brand`
-- and `Signature` are the proofs.
--
-- Base has what the parts share: tests, lists, the integers, and texts as lists of bytes with the readers of
-- the C++ library that the program calls (from_chars, stoi, to_string).
--
-- Not modelled: what is printed; platform_signature and platform_utils.cpp, which ask uname and the
-- scheduler; the frequency and the benchmark of cpu_capability.cpp; the model name in cpu_info.cpp. Allocations of
-- the standard library other than samples.reserve are taken to succeed. The instructions, the calls of the system and the arithmetic of a double are parameters, and so is how a
-- stream prints a double. In Session, the answers of the clock, the allocators and the allowed CPUs are
-- given, and not computed by the models of these calls; a shared-memory result keeps its statistics and its
-- success.
mod Base
pub mod Cli
pub mod Latency
pub mod Topology
pub mod Shared
pub mod Evaluation
pub mod Bandwidth
pub mod Operational
pub mod Spectre
pub mod Statistics
pub mod Report
pub mod Session
pub mod Json
pub mod Defensive
pub mod Capability
