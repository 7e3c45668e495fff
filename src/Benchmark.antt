-- ===== src/Benchmark.antt =====
-- The programs under benchmark/ that measure this library: benchmark/echo_test/fastws_benchmark.cpp and
-- benchmark/latency/fastws_latency.cpp.
pub mod Latency
pub mod Echo
pub mod Counting
