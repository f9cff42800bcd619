-- ===== src/Tests.antt =====
-- Runs of the model on small inputs, and each theorem at an input that meets its hypotheses.
mod CriteoRuns
mod DatasetRuns
mod EmbeddingFileRuns
mod GeneratedRun
mod LogRuns
mod ObjectApiRuns
mod NumpyReference
mod AnalyzeRuns
mod TorchRuns
mod TraceRuns
mod BenchReference
mod BenchRuns
mod PreprocessRuns
mod PrototypeRuns
mod ConvertRuns
mod ReportRuns
mod RuntimeRuns
